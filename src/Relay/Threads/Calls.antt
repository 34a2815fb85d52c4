-- ===== src/Relay/Threads/Calls.antt =====
-- What a call that returns has done to the table of addresses and to the map.
use over.Base.{
  ℕ, ◌≡◌, refl, ap, Bool, true, false, not, inl, inr, Option, none, some, [], ◌∷◌, subst,
  match_option, if◌then◌else◌, get_elem?, set, Bool-cases, Option-cases,
}
use over.Kernel.{Bytes}
use over.Run.{Machine, fault, ◌>>◌, Out, ok, Returns, returns, Keeps, keeps, faults}
use over.Text.{scan_unsigned}
use over.Relay.State.{Vars}
use over.Relay.Address.{
  differ, last_piece, get_ip_num, lock, unlock, status_at, set_status, set_ip_status, connect_ip,
  set_connection_with_ip, get_free_ip, free_number, connection_of, get_connection_by_ip,
}

-- The number that getIpNum reads in the address.
unfoldable pub number_of : Bytes → Option ℕ
number_of ip = match_option (scan_unsigned (last_piece [] ip)) none (λ r. some r.0)

-- The entry's number, its value before, and the variables afterwards.
pub record Marks (ip : Bytes) (b : Bool) (v w : Vars) : Type 0 where
  pub number : ℕ
  pub reads : number_of ip ≡ some number
  pub before : get_elem? v.status number ≡ some (not b)
  pub after : w ≡ record v { locked = false; status = set v.status number b }

pub record Joins (ip : Bytes) (client : ℕ) (v w : Vars) : Type 0 where
  pub number : ℕ
  pub reads : number_of ip ≡ some number
  pub after : w ≡ record v { locked = false; connections = (number, client) ∷ v.connections }

pub kept :
    {S A : Type 0} {I : S → Type 0} {o : Out S A} (a : A) (n : Machine S)
    → o ≡ ok a n
    → Keeps I o
    → I n.vars
kept {I} a n e k = given (subst (Keeps I) e k)
  where
    given : Keeps I (ok a n) → I n.vars
    given (keeps h) = h

-- setIpStatus at an entry that is there.
marks :
    (ip : Bytes) (b old : Bool) (number : ℕ) (m : Machine Vars)
    → number_of ip ≡ some number
    → get_elem? m.vars.status number ≡ some old
    → Keeps (Marks ip b m.vars) (
        (if differ old b then (set_status number b >> unlock) else (λ n. fault))
          (record m { vars = record (m.vars) { locked = true } }))
unfolding set_status unlock
marks ip true true number m r at = faults
marks ip false false number m r at = faults
marks ip true false number m r at =
    keeps (record { number = number; reads = r; before = at; after = refl })
marks ip false true number m r at =
    keeps (record { number = number; reads = r; before = at; after = refl })

module _ (ip : Bytes) (m : Machine Vars) where
  pub set_ip_status-Marks : (b : Bool) → Keeps (Marks ip b m.vars) (set_ip_status ip b m)
  unfolding set_ip_status lock unlock get_ip_num status_at set_status number_of
  set_ip_status-Marks b = elim (Bool-cases m.vars.locked) [
    | inl l ↦ rw l faults
    | inr u ↦ rw u (elim (Option-cases (scan_unsigned (last_piece [] ip))) [
      | inl none_read ↦ rw none_read faults
      | inr (r, e) ↦ rw e (elim (Option-cases (get_elem? m.vars.status r.0)) [
        | inl out ↦ rw out faults
        | inr (old, at) ↦ rw at (
            marks ip b old r.0 (record m { vars = record (m.vars) { locked = false } }) (rw e refl)
              at)
      ])
    ])
  ]

  pub set_connection_with_ip-Joins :
      (client : ℕ) → Keeps (Joins ip client m.vars) (set_connection_with_ip ip client m)
  unfolding set_connection_with_ip set_ip_status lock unlock get_ip_num status_at connect_ip
      number_of
  set_connection_with_ip-Joins client = elim (Bool-cases m.vars.locked) [
    | inl l ↦ rw l faults
    | inr u ↦ rw u (elim (Option-cases (scan_unsigned (last_piece [] ip))) [
      | inl none_read ↦ rw none_read faults
      | inr (r, e) ↦ rw e (elim (Option-cases (get_elem? m.vars.status r.0)) [
        | inl out ↦ rw out faults
        | inr (true, at) ↦ rw at (keeps (record { number = r.0; reads = rw e refl; after = refl }))
        | inr (false, at) ↦ rw at faults
      ])
    ])
  ]

pub get_free_ip-quiet :
    (m : Machine Vars) → Keeps (λ w. w ≡ record (m.vars) { locked = false }) (get_free_ip m)
unfolding get_free_ip lock unlock
get_free_ip-quiet m = elim (Bool-cases m.vars.locked) [
  | inl l ↦ rw l faults
  | inr u ↦ rw u (elim (Option-cases (free_number m.vars.status)) [
    | inl full ↦ rw full faults
    | inr (i, e) ↦ rw e (keeps refl)
  ])
]

number_of-scan :
    (ip : Bytes) (n : ℕ)
    → number_of ip ≡ some n
    → (rest : Bytes) × (scan_unsigned (last_piece [] ip) ≡ some (n, rest))
unfolding number_of
number_of-scan ip n = elim (Option-cases (scan_unsigned (last_piece [] ip))) [
  | inl e ↦ rw e (λ h. absurd (cc))
  | inr ((a, rest), e) ↦ rw e (λ h. (rest, ap (λ z. some (z, rest)) (cc)))
]

-- The lookup of an address that is in use.
pub get_connection_by_ip-entry :
    (ip : Bytes) (m : Machine Vars) (n : ℕ)
    → m.vars.locked ≡ false
    → number_of ip ≡ some n
    → get_elem? m.vars.status n ≡ some true
    → Returns (λ r _. r ≡ connection_of n m.vars.connections) (get_connection_by_ip ip m)
unfolding get_connection_by_ip lock unlock get_ip_num status_at
get_connection_by_ip-entry ip m n u e at =
    let (rest, scan) = number_of-scan ip n e in rw (u, scan, at) (returns refl)
