-- ===== src/Server/Pool/Leak.antt =====
-- A client that asks for an address twice.
use over.Base.{
  subst, ℕ, ◌≡◌, inl, inr, false, none, some, arith, ◌==◌, Bool-cases, IsFirst, if◌then◌else◌,
}
use over.Kernel.{Fd, Kernel}
use over.Run.{Machine, Returns, ok, mono, returned}
use over.Server.State.{User, Vars}
use over.Server.Pool.{allocate_ip_addr, deallocate_ip_addr}
use over.Server.Pool.Owners.{owner, allocate_ip_addr-Allocates, deallocate_ip_addr-Deallocates}

module _ (k : Kernel) (fd : Fd) where
  -- A successful allocation, as what it does to the owners.
  pub allocated :
      (m n : Machine Vars) (i : ℕ)
      → allocate_ip_addr k fd m ≡ ok (some i) n
      → (IsFirst (λ (u : User). u.status) m.vars.users i)
        × ((j : ℕ) → owner n.vars.users j ≡ (if i == j then some fd else owner m.vars.users j))
  allocated m n i e = elim (returned (some i) n e (allocate_ip_addr-Allocates k fd m)) [
    | inl (e', _, _) ↦ absurd (cc)
    | inr (i', e', first, owners, _) ↦
        let same : i' ≡ i = cc in
        subst
          (λ x.
            (IsFirst (λ (u : User). u.status) m.vars.users x)
            × ((j : ℕ) → owner n.vars.users j ≡ (if x == j then some fd else owner m.vars.users j)))
          same (first, owners)
  ]

  free_entry :
      (m : Machine Vars) (i : ℕ)
      → IsFirst (λ (u : User). u.status) m.vars.users i
      → owner m.vars.users i ≡ none
  free_entry m i first = ground (arith, first.holds, first.passes)

  -- When two address requests of a client have both been granted, releasing the client returns
  -- with some address still owned by its descriptor.
  pub second_request_leaks :
      (m n o : Machine Vars) (i j : ℕ)
      → allocate_ip_addr k fd m ≡ ok (some i) n
      → allocate_ip_addr k fd n ≡ ok (some j) o
      → Returns (λ _ p. (h : ℕ) × (owner p.vars.users h ≡ some fd)) (deallocate_ip_addr k fd o)
  second_request_leaks m n o i j e e' =
      let (first, owners) = allocated m n i e in
      let (first', owners') = allocated n o j e' in
      let ne : (j == i) ≡ false = ground (arith, owners i, free_entry n j first') in
      mono (deallocate_ip_addr-Deallocates k fd o) λ r p d. elim d [
        | inl (_, _, never) ↦ absurd (never j (ground (arith, owners' j)))
        | inr (h, _, _, _, left, _) ↦ elim (Bool-cases (h == j)) [
          | inl same ↦ (i, ground (arith, left i, owners' i, owners i))
          | inr other ↦ (j, ground (arith, left j, owners' j))
        ]
      ]
