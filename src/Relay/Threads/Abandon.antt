-- ===== src/Relay/Threads/Abandon.antt =====
-- The end of a reading thread whose reply could not be sent.
use over.Base.{
  ℕ, zero, suc, ◌<◌, ◌≡◌, refl, ap, Bool, true, false, Option, some, List, [], ◌∷◌, arith, length,
  get_elem?, set, get_elem?-set_self, get_elem?-lt, ==-refl,
}
use over.Kernel.{Bytes}
use over.Run.{Machine, Returns, returns, pure, ◌>>=◌, ◌>>◌}
use over.Relay.State.{Vars, Command}
use over.Relay.Address.{
  get_free_ip, set_ip_status, set_connection_with_ip, get_connection_by_ip, free_number, lock,
  unlock, status_at, set_status, connect_ip, connection_of,
}
use over.Relay.Numbers.{get_ip_num-ip_of, free_number-free}

set-restore :
    (xs : List Bool) (i : ℕ) → get_elem? xs i ≡ some false → set (set xs i true) i false ≡ xs
set-restore [] i h = refl
set-restore (x ∷ xs) zero h = ap (λ z. z ∷ xs) (cc)
set-restore (x ∷ xs) (suc i) h = ap (◌∷◌ x) (set-restore xs i h)

-- The calls of three clients' threads: the first finds an address and its reply fails, so that it
-- goes to its end; the second is served in between, and the third after that. The result is the
-- address of the second, the one of the third, and the client that the second's address leads to.
abbrev pub lend : ℕ → ℕ → Command (Bytes × Bytes × Option ℕ)
lend second third = get_free_ip >>= λ a. get_free_ip >>= λ b.
    set_ip_status b true
    >> (set_connection_with_ip b second
        >> (set_ip_status a false
            >> (get_free_ip >>= λ c.
                set_ip_status c true
                >> (set_connection_with_ip c third
                    >> (get_connection_by_ip b >>= λ found. pure (b, c, found))))))

module _ (i : ℕ) (m : Machine Vars) (unheld : m.vars.locked ≡ false)
    (size : length m.vars.status ≡ 1024) (free : free_number m.vars.status ≡ some i) where
  -- In a table of 1024 entries with a free number and the mutex not held, when a thread has
  -- found an address, a second client is then served with the same one, the first thread's reply
  -- fails so that it gives the address back, and a third client is served, the run returns, the
  -- second and the third client have the same address, and its lookup gives the third.
  pub address_given_twice :
      (second third : ℕ) → Returns (λ r _. (r.0 ≡ r.1) × (r.2 ≡ some third)) (lend second third m)
  unfolding get_free_ip lock unlock set_ip_status status_at set_status set_connection_with_ip
      get_connection_by_ip connect_ip connection_of
  address_given_twice second third =
      let at : get_elem? m.vars.status i ≡ some false = free_number-free m.vars.status i free in
      let below : i < 1024 = omega (arith, size, get_elem?-lt m.vars.status i at) in
      let now_used : get_elem? (set m.vars.status i true) i ≡ some true =
        get_elem?-set_self m.vars.status i true (omega (arith, below, size)) in
      rw
        (
          unheld,
          free,
          free,
          get_ip_num-ip_of i _ below,
          at,
          get_ip_num-ip_of i _ below,
          now_used,
          get_ip_num-ip_of i _ below,
          now_used,
          set-restore m.vars.status i at,
          free,
          get_ip_num-ip_of i _ below,
          at,
          get_ip_num-ip_of i _ below,
          now_used,
          get_ip_num-ip_of i _ below,
          now_used,
          ==-refl i,
        )
        (returns (refl, refl))
