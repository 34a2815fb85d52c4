-- ===== src/Server/Table/Changes.antt =====
-- What the operations write to an entry keeps the table well formed.
use over.Base.{
  ℕ, ◌<◌, ◌≡◌, ◌≢◌, inl, inr, refl, sym, ◌∙◌, true, some, List, ◌==◌, arith, length, get_elem?,
  modify, length-modify, get_elem?-modify_self, get_elem?-modify_ne, get_elem?-lt, get_elem?-some,
  Bool-cases, ==→eq, subst,
}
use over.Kernel.{Bytes}
use over.Server.State.{User}
use over.Server.Pool.{grant, vacate, holds_fd}
use over.Server.Client.{hear}
use over.Server.Beat.{beat}
use over.Server.Table.{IsEntry, IsTable}
use over.Server.Table.Addresses.{inet_pton-slot_addr}

-- A write to one entry keeps the table if it keeps that entry.
pub modify-IsTable :
    (f : User → User) (i : ℕ) (us : List User)
    → IsTable us
    → ((u : User) → get_elem? us i ≡ some u → IsEntry i u → IsEntry i (f u))
    → IsTable (modify f i us)
modify-IsTable f i us t keep = record {
  size = length-modify f i us ∙ t.size;
  entries = λ j u h. elim (Bool-cases (i == j)) [
    | inl same ↦
        let e : i ≡ j = ==→eq i j same in
        subst (λ x. IsEntry x u) e
          (written u (subst (λ x. get_elem? (modify f i us) x ≡ some u) (sym e) h))
    | inr other ↦
        let ne : i ≢ j = λ e. ground arith in
        t.entries j u (sym (get_elem?-modify_ne f i j us ne) ∙ h)
  ];
}
  where
    written : (u : User) → get_elem? (modify f i us) i ≡ some u → IsEntry i u
    written u h =
        let lt : i < length us = omega (arith, get_elem?-lt _ i h, length-modify f i us) in
        let (a, at) = get_elem?-some us i lt in
        let e : f a ≡ u = cc (get_elem?-modify_self f i us at, h) in
        subst (IsEntry i) e (keep a at (t.entries i a at))

pub grant-IsEntry :
    (i fd sent recved : ℕ) (peer : Bytes) (u : User)
    → i < 256
    → u.status ≡ true
    → IsEntry i u
    → IsEntry i (grant fd sent recved peer u)
unfolding grant
grant-IsEntry i fd sent recved peer u lt free e = record {
  text = e.text;
  idle = λ h. cc;
  kept_back = λ r. absurd (ground (arith, e.kept_back r));
  held = λ r h. (refl, rw (e.text, inet_pton-slot_addr i lt));
}

pub vacate-IsEntry :
    (i fd : ℕ) (u : User) → holds_fd fd u ≡ true → IsEntry i u → IsEntry i (vacate u)
unfolding vacate
vacate-IsEntry i fd u h e = record {
  text = e.text;
  idle = λ s. refl;
  kept_back = λ r. absurd (ground (arith, e.kept_back r));
  held = λ r s. cc;
}

pub hear-IsEntry : (i t : ℕ) (u : User) → IsEntry i u → IsEntry i (hear t u)
unfolding hear
hear-IsEntry i t u e = record {
  text = e.text;
  idle = e.idle;
  kept_back = e.kept_back;
  held = e.held;
}

pub beat-IsEntry : (i t : ℕ) (u : User) → IsEntry i u → IsEntry i (beat t u)
unfolding beat
beat-IsEntry i t u e = record {
  text = e.text;
  idle = e.idle;
  kept_back = e.kept_back;
  held = e.held;
}
