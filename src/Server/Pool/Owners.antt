-- ===== src/Server/Pool/Owners.antt =====
-- The table as a map from addresses to clients, and what the operations do to that map.
use over.Base.{
  ℕ, ◌<◌, ◌≡◌, ◌≢◌, ◌⊎◌, inl, inr, refl, sym, ◌∙◌, true, false, Option, none, some, List, arith,
  ◌==◌, if◌then◌else◌, match_option, get_elem?, modify, get_elem?-modify, find_index,
  find_index-some, find_index-none, IsFirst, Option-cases, Bool-cases, ==→eq,
}
use over.Kernel.{Fd, Kernel}
use over.Run.{Machine, Returns, returns, mono}
use over.Server.State.{User, Vars}
use over.Server.Pool.{grant, vacate, holds_fd, allocate_ip_addr, deallocate_ip_addr}

-- Who holds address `i`: nobody while it is free.
abbrev pub holder : User → Option Fd
holder u = if u.status then none else u.fd

abbrev pub owner : List User → ℕ → Option Fd
owner us i = match_option (get_elem? us i) none holder

pub owner-modify :
    (f : User → User) (o : Option Fd) (i : ℕ) (us : List User) (u : User)
    → get_elem? us i ≡ some u
    → holder (f u) ≡ o
    → (j : ℕ) → owner (modify f i us) j ≡ (if i == j then o else owner us j)
owner-modify f o i us u at h j = ground (arith, get_elem?-modify f i j us)

-- A change that leaves the entry's holder leaves every owner.
pub owner-modify_same :
    (f : User → User) (i : ℕ) (us : List User) (u : User)
    → get_elem? us i ≡ some u
    → holder (f u) ≡ holder u
    → (j : ℕ) → owner (modify f i us) j ≡ owner us j
owner-modify_same f i us u at h j = ground (arith, owner-modify f (holder u) i us u at h j)

-- What allocate_ip_addr promises: with no free entry it fails and changes nothing; otherwise the
-- first free address now belongs to the client, and no other address changes hands.
abbrev pub Allocates : Fd → Machine Vars → Option ℕ → Machine Vars → Type 0
Allocates fd m r m' =
    ((r ≡ none)
      × (m' ≡ m)
      × ((i : ℕ) (u : User) → get_elem? m.vars.users i ≡ some u → u.status ≡ false))
    ⊎ ((i : ℕ) × (r ≡ some i)
        × IsFirst (λ (u : User). u.status) m.vars.users i
        × ((j : ℕ) → owner m'.vars.users j ≡ (if i == j then some fd else owner m.vars.users j))
        × (m'.vars.bufs ≡ m.vars.bufs))

-- What deallocate_ip_addr promises: the first address of the client is free again; without one it
-- fails and changes nothing.
abbrev pub Deallocates : Fd → Machine Vars → Option ℕ → Machine Vars → Type 0
Deallocates fd m r m' =
    ((r ≡ none) × (m' ≡ m) × ((i : ℕ) → owner m.vars.users i ≢ some fd))
    ⊎ ((i : ℕ) × (r ≡ some i)
        × (owner m.vars.users i ≡ some fd)
        × ((j : ℕ) → j < i → owner m.vars.users j ≢ some fd)
        × ((j : ℕ) → owner m'.vars.users j ≡ (if i == j then none else owner m.vars.users j))
        × (m'.vars.bufs ≡ m.vars.bufs))

holds_fd_iff : (fd : Fd) (u : User) → holder u ≡ some fd → holds_fd fd u ≡ true
holds_fd_iff fd u h = ground arith

holder_of : (fd : Fd) (u : User) → holds_fd fd u ≡ true → holder u ≡ some fd
holder_of fd u h = ground arith

pub not_owner :
    (fd : Fd) (us : List User) (j : ℕ)
    → ((u : User) → get_elem? us j ≡ some u → holds_fd fd u ≡ false)
    → owner us j ≢ some fd
not_owner fd us j never e = elim (Option-cases (get_elem? us j)) [
  | inl out ↦ ground arith
  | inr (u, at) ↦ ground (arith, never u at, holds_fd_iff fd u)
]

module _ (k : Kernel) (fd : Fd) where
  -- allocate_ip_addr returns on every table: with no free entry it reports failure and changes
  -- nothing; otherwise it gives the first free entry to the client, and no other address changes
  -- hands and no buffer changes.
  pub allocate_ip_addr-Allocates :
      (m : Machine Vars) → Returns (Allocates fd m) (allocate_ip_addr k fd m)
  unfolding allocate_ip_addr grant
  allocate_ip_addr-Allocates m =
      elim (Option-cases (find_index (λ (u : User). u.status) m.vars.users)) [
        | inl e ↦ rw e (returns (inl (refl, refl, find_index-none _ m.vars.users e)))
        | inr (i, e) ↦
            let first = find_index-some _ m.vars.users i e in
            rw e (
              returns (
                inr (
                  i,
                  refl,
                  first,
                  owner-modify _ (some fd) i m.vars.users first.item first.holds refl,
                  refl,
                )))
      ]

  -- deallocate_ip_addr returns on every table: for a client that owns no address it reports
  -- failure and changes nothing; otherwise the first address that the client owns is free
  -- afterwards, and no other address changes hands and no buffer changes.
  pub deallocate_ip_addr-Deallocates :
      (m : Machine Vars) → Returns (Deallocates fd m) (deallocate_ip_addr k fd m)
  unfolding deallocate_ip_addr vacate
  deallocate_ip_addr-Deallocates m = elim (Option-cases (find_index (holds_fd fd) m.vars.users)) [
    | inl e ↦ rw e (
        returns
          (inl (refl, refl, λ i. not_owner fd m.vars.users i (find_index-none _ m.vars.users e i))))
    | inr (i, e) ↦
        let first = find_index-some _ m.vars.users i e in
        rw e (
          returns (
            inr (
              i,
              refl,
              ground (arith, first.holds, holder_of fd first.item first.passes),
              (λ j lt. not_owner fd m.vars.users j (λ u at. first.first j u lt at)),
              owner-modify _ none i m.vars.users first.item first.holds refl,
              refl,
            )))
  ]

module _ (fd : Fd) where
  only :
      (i i' : ℕ) (us vs : List User)
      → owner vs i' ≡ some fd
      → owner vs i' ≡ (if i == i' then some fd else owner us i')
      → owner us i' ≢ some fd
      → i' ≡ i
  only i i' us vs own e fresh = elim (Bool-cases (i == i')) [
    | inl same ↦ sym (==→eq i i' same)
    | inr other ↦ absurd (fresh (ground arith))
  ]

  given_back :
      (i i' j : ℕ) (after between : Option Fd) (us : List User)
      → i' ≡ i
      → after ≡ (if i' == j then none else between)
      → between ≡ (if i == j then some fd else owner us j)
      → IsFirst (λ (u : User). u.status) us i
      → after ≡ owner us j
  given_back i i' j after between us at e e' first = elim (Bool-cases (i == j)) [
    | inl same ↦ ground (arith, first.holds, first.passes)
    | inr other ↦ ground arith
  ]

-- For a client that owns no address, allocating and then releasing returns both times with the
-- same entry number, or failure both times, and afterwards every address has the owner that it
-- had before.
pub deallocate-allocate :
    (k : Kernel) (fd : Fd) (m : Machine Vars)
    → ((i : ℕ) → owner m.vars.users i ≢ some fd)
    → Returns
        (λ r n.
          Returns
            (λ r' o. (r' ≡ r) × ((j : ℕ) → owner o.vars.users j ≡ owner m.vars.users j))
            (deallocate_ip_addr k fd n))
        (allocate_ip_addr k fd m)
deallocate-allocate k fd m fresh = mono (allocate_ip_addr-Allocates k fd m) back
  where
    back :
        (r : Option ℕ) (n : Machine Vars)
        → Allocates fd m r n
        → Returns
            (λ r' o. (r' ≡ r) × ((j : ℕ) → owner o.vars.users j ≡ owner m.vars.users j))
            (deallocate_ip_addr k fd n)
    back r n (inl (e, same, _)) = mono (deallocate_ip_addr-Deallocates k fd n) λ r' o d. elim d [
      | inl (e', same', _) ↦ (e' ∙ sym e, λ j. rw (same', same))
      | inr (i, _, own, _, _, _) ↦ absurd (fresh i (rw same at own))
    ]
    back r n (inr (i, e, first, owners, _)) = mono (deallocate_ip_addr-Deallocates k fd n) λ r' o d.
        elim d [
          | inl (_, _, never) ↦ absurd (never i (ground (arith, owners i)))
          | inr (i', e', own, _, owners', _) ↦
              let at : i' ≡ i = only fd i i' m.vars.users n.vars.users own (owners i') (fresh i') in
              (
                rw (e', e, at),
                λ j.
                    given_back fd i i' j (owner o.vars.users j) (owner n.vars.users j) m.vars.users
                      at (owners' j) (owners j) first,
              )
        ]
