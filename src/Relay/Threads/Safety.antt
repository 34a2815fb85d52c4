-- ===== src/Relay/Threads/Safety.antt =====
-- What the asserted calls keep true of all the reading threads together.
use over.Base.{
  ℕ, ◌≡◌, ◌≢◌, ◌⊎◌, refl, sym, ap, ◌∙◌, true, false, inl, inr, Option, none, some, ◌==◌, arith,
  get_elem?, set, Bool-cases, ==→eq, ==-refl, get_elem?-set_self, get_elem?-set_ne, get_elem?-lt,
  subst, get_elem?-set_ne,
}
use over.Kernel.{Bytes}
use over.Run.{Machine, Returns, mono}
use over.Relay.State.{Vars}
use over.Relay.Address.{connection_of, get_connection_by_ip}
use over.Relay.Threads.{
  Place, idle, chosen, marked, connected, gone, Move, choose, mark, connect, release, Threads,
  update, Step, call, elsewhere, Reach, start, later,
}
use over.Relay.Threads.Calls.{
  number_of, Marks, Joins, kept, get_free_ip-quiet, get_connection_by_ip-entry, set_ip_status-Marks,
  set_connection_with_ip-Joins,
}

-- The number that a thread has marked and not given back, and the one that it is entered for.
abbrev pub held : Place → Option ℕ
held (marked ip) = number_of ip
held (connected ip) = number_of ip
held p = none

abbrev pub entered : Place → Option ℕ
entered (connected ip) = number_of ip
entered p = none

record Inv (v : Vars) (place : ℕ → Place) : Type 0 where
  unheld : v.locked ≡ false
  used : (i n : ℕ) → held (place i) ≡ some n → get_elem? v.status n ≡ some true
  unique : (i j n : ℕ) → held (place i) ≡ some n → held (place j) ≡ some n → i ≡ j
  routed : (i n : ℕ) → entered (place i) ≡ some n → connection_of n v.connections ≡ some i

entered-held : (p : Place) (n : ℕ) → entered p ≡ some n → held p ≡ some n
entered-held (connected ip) n h = h
entered-held idle n h = absurd (cc)
entered-held (chosen ip) n h = absurd (cc)
entered-held (marked ip) n h = absurd (cc)
entered-held gone n h = absurd (cc)

-- What holds of a thread after thread i has moved: it is the mover at its new place, or another at
-- its old one.
moved :
    {B : Type 0} (g : Place → B) (place : ℕ → Place) (i : ℕ) (p : Place) (j : ℕ) (b : B)
    → g (update place i p j) ≡ b
    → ((i ≡ j) × (g p ≡ b)) ⊎ ((i ≢ j) × (g (place j) ≡ b))
moved g place i p j b = elim (Bool-cases (i == j)) [
  | inl e ↦ rw e (λ h. inl (==→eq i j e, h))
  | inr e ↦ rw e (λ h. inr (λ f. ground arith, h))
]

-- A thread that holds nothing afterwards, with the table and the map as they were.
Inv-quiet :
    (v w : Vars) (place : ℕ → Place) (i : ℕ) (p : Place)
    → Inv v place
    → w ≡ record v { locked = false }
    → held p ≡ none
    → Inv w (update place i p)
Inv-quiet v w place i p inv e quiet =
    subst (λ z. Inv z (update place i p)) (sym e)
      (record {
        unheld = refl;
        used = λ j n h. elim (moved held place i p j (some n) h) [
          | inl (_, a) ↦ absurd (cc)
          | inr (_, a) ↦ inv.used j n a
        ];
        unique = λ j l n a b. elim (moved held place i p j (some n) a) [
          | inl (_, c) ↦ absurd (cc)
          | inr (_, c) ↦ elim (moved held place i p l (some n) b) [
            | inl (_, d) ↦ absurd (cc)
            | inr (_, d) ↦ inv.unique j l n c d
          ]
        ];
        routed = λ j n h. elim (moved entered place i p j (some n) h) [
          | inl (_, a) ↦ absurd (let b = entered-held p n a in cc)
          | inr (_, a) ↦ inv.routed j n a
        ];
      })

-- Marking a number that was free.
Inv-mark :
    (v w : Vars) (place : ℕ → Place) (i : ℕ) (ip : Bytes)
    → Inv v place
    → Marks ip true v w
    → Inv w (update place i (marked ip))
Inv-mark v w place i ip inv d =
    subst (λ z. Inv z (update place i (marked ip))) (sym d.after)
      (record {
        unheld = refl;
        used = λ j n h. elim (moved held place i (marked ip) j (some n) h) [
          | inl (_, a) ↦
              let e : d.number ≡ n = grind (arith, d.reads, a) in
              subst (λ z. get_elem? (set v.status d.number true) z ≡ some true) e
                (get_elem?-set_self v.status d.number true
                  (get_elem?-lt v.status d.number d.before))
          | inr (_, a) ↦ get_elem?-set_ne v.status d.number n true (other j n a) ∙ inv.used j n a
        ];
        unique = λ j l n a b. elim (moved held place i (marked ip) j (some n) a) [
          | inl (e, c) ↦ elim (moved held place i (marked ip) l (some n) b) [
            | inl (f, _) ↦ sym e ∙ f
            | inr (_, f) ↦ absurd (other l n f (grind (arith, d.reads, c)))
          ]
          | inr (_, c) ↦ elim (moved held place i (marked ip) l (some n) b) [
            | inl (_, f) ↦ absurd (other j n c (grind (arith, d.reads, f)))
            | inr (_, f) ↦ inv.unique j l n c f
          ]
        ];
        routed = λ j n h. elim (moved entered place i (marked ip) j (some n) h) [
          | inl (_, a) ↦ absurd (cc)
          | inr (_, a) ↦ inv.routed j n a
        ];
      })
  where
    other : (j n : ℕ) → held (place j) ≡ some n → d.number ≢ n
    other j n h e =
        let t : get_elem? v.status d.number ≡ some true =
          ap (get_elem? v.status) e ∙ inv.used j n h in
        let f = d.before in cc

-- Entering the client whose thread has marked the number.
Inv-connect :
    (v w : Vars) (place : ℕ → Place) (i : ℕ) (ip : Bytes)
    → Inv v place
    → held (place i) ≡ number_of ip
    → Joins ip i v w
    → Inv w (update place i (connected ip))
unfolding connection_of
Inv-connect v w place i ip inv mine d =
    subst (λ z. Inv z (update place i (connected ip))) (sym d.after)
      (record {
        unheld = refl;
        used = λ j n h. inv.used j n (back j n h);
        unique = λ j l n a b. inv.unique j l n (back j n a) (back l n b);
        routed = λ j n h. elim (moved entered place i (connected ip) j (some n) h) [
          | inl (e, a) ↦
              let f : d.number ≡ n = grind (arith, d.reads, a) in rw (f, ==-refl n) (ap some e)
          | inr (ne, a) ↦
              let f : (d.number == n) ≡ false = apart (d.number) n (λ e.
                ne (inv.unique i j n (mine ∙ d.reads ∙ ap some e) (entered-held (place j) n a))) in
              rw f (inv.routed j n a)
        ];
      })
  where
    back : (j n : ℕ) → held (update place i (connected ip) j) ≡ some n → held (place j) ≡ some n
    back j n h = elim (moved held place i (connected ip) j (some n) h) [
      | inl (e, a) ↦ ap (λ z. held (place z)) (sym e) ∙ mine ∙ a
      | inr (_, a) ↦ a
    ]

    apart : (a b : ℕ) → a ≢ b → (a == b) ≡ false
    apart a b h = ground arith

-- Giving back the number that the thread is entered for.
Inv-release :
    (v w : Vars) (place : ℕ → Place) (i : ℕ) (ip : Bytes)
    → Inv v place
    → held (place i) ≡ number_of ip
    → Marks ip false v w
    → Inv w (update place i gone)
Inv-release v w place i ip inv mine d =
    subst (λ z. Inv z (update place i gone)) (sym d.after)
      (record {
        unheld = refl;
        used = λ j n h.
            let (ne, a) = back j n h in
            get_elem?-set_ne v.status d.number n false
              (λ e. ne (inv.unique i j n (mine ∙ d.reads ∙ ap some e) a))
            ∙ inv.used j n a;
        unique = λ j l n a b. inv.unique j l n (back j n a).1 (back l n b).1;
        routed = λ j n h. elim (moved entered place i gone j (some n) h) [
          | inl (_, a) ↦ absurd (cc)
          | inr (_, a) ↦ inv.routed j n a
        ];
      })
  where
    back : (j n : ℕ) → held (update place i gone j) ≡ some n → (i ≢ j) × (held (place j) ≡ some n)
    back j n h = elim (moved held place i gone j (some n) h) [
      | inl (_, a) ↦ absurd (cc)
      | inr b ↦ b
    ]

Move-Inv :
    (i : ℕ) (m n : Machine Vars) (place : ℕ → Place) (p q : Place)
    → Move i m p n q
    → place i ≡ p
    → Inv m.vars place
    → Inv n.vars (update place i q)
Move-Inv i m n place _ _ (choose {ip} e) at inv =
    Inv-quiet m.vars n.vars place i (chosen ip) inv (kept ip n e (get_free_ip-quiet m)) refl
Move-Inv i m n place _ _ (mark {ip} e) at inv =
    Inv-mark m.vars n.vars place i ip inv (kept tt n e (set_ip_status-Marks ip m true))
Move-Inv i m n place _ _ (connect {ip} e) at inv =
    Inv-connect m.vars n.vars place i ip inv (ap held at)
      (kept tt n e (set_connection_with_ip-Joins ip m i))
Move-Inv i m n place _ _ (release {ip} e) at inv =
    Inv-release m.vars n.vars place i ip inv (ap held at)
      (kept tt n e (set_ip_status-Marks ip m false))

Step-Inv : {s t : Threads} → Step s t → Inv s.machine.vars s.place → Inv t.machine.vars t.place
Step-Inv {s} (call i mv) inv = Move-Inv i s.machine _ s.place (s.place i) _ mv refl inv
Step-Inv {s} (elsewhere n a b c) inv = record {
  unheld = c ∙ inv.unheld;
  used = λ i k h. ap (λ z. get_elem? z k) a ∙ inv.used i k h;
  unique = inv.unique;
  routed = λ i k h. ap (connection_of k) b ∙ inv.routed i k h;
}

Reach-Inv : {s : Threads} → Reach s → Inv s.machine.vars s.place
Reach-Inv (start m unheld) = record {
  unheld = unheld;
  used = λ i n h. absurd (cc);
  unique = λ i j n h. absurd (cc);
  routed = λ i n h. absurd (cc);
}
Reach-Inv (later r st) = Step-Inv st (Reach-Inv r)

-- In every state that the reading threads of any number of clients reach by their calls in any
-- order, where none of them has ended because its reply could not be sent, no two threads hold
-- the same number of an address, from the time a thread has marked it with setIpStatus until it
-- has given it back.
pub one_holder :
    (s : Threads) (i j n : ℕ)
    → Reach s
    → held (s.place i) ≡ some n
    → held (s.place j) ≡ some n
    → i ≡ j
one_holder s i j n r a b = (Reach-Inv r).unique i j n a b

-- In every such state, the lookup of the address that a thread has entered with
-- setConnectionWithIp and not yet given back returns, and it gives that thread's own client.
pub get_connection_by_ip-connected :
    (s : Threads) (i n : ℕ) (ip : Bytes)
    → Reach s
    → s.place i ≡ connected ip
    → number_of ip ≡ some n
    → Returns (λ r _. r ≡ some i) (get_connection_by_ip ip s.machine)
get_connection_by_ip-connected s i n ip r at e =
    let inv = Reach-Inv r in
    let mine : entered (s.place i) ≡ some n = ap entered at ∙ e in
    mono
      (get_connection_by_ip-entry ip s.machine n inv.unheld e
        (inv.used i n (entered-held (s.place i) n mine)))
      λ r _ h. h ∙ inv.routed i n mine
