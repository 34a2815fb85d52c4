-- ===== src/Relay/Numbers.antt =====
-- Who gets which address: the number is read back from the text, and the lookup finds its client.
use over.Base.{
  get_elem?-lt, ℕ, suc, ◌+◌, ◌<◌, ◌≡◌, refl, Bool, true, false, Option, none, some, List, [], ◌∷◌,
  ◌==◌, arith, length, get_elem?, set, holds_from, holds_from-at, ==-refl, get_elem?-set_self,
}
use over.Kernel.{Bytes}
use over.Run.{Machine, Returns, returns, ok, fault, ◌>>=◌, ◌>>◌}
use over.Text.{scan_unsigned}
use over.Relay.State.{Vars, Command}
use over.Relay.Address.{
  last_piece, get_ip_num, lock, unlock, status_at, set_status, set_ip_status, connection_of,
  get_connection_by_ip, connect_ip, set_connection_with_ip, free_from, free_number, ip_of,
  get_free_ip,
}

abbrev pub reads_as : Option (ℕ × Bytes) → ℕ → Bool
reads_as none n = false
reads_as (some (a, rest)) n = a == n

pub reads_as-some :
    (o : Option (ℕ × Bytes)) (n : ℕ) → reads_as o n ≡ true → (rest : Bytes) × (o ≡ some (n, rest))
reads_as-some none n h = absurd (cc)
reads_as-some (some (a, rest)) n h = let e : a ≡ n = ground arith in (rest, rw e)

number_table : holds_from (λ i. reads_as (scan_unsigned (last_piece [] (ip_of i))) i) 0 1024 ≡ true
unfolding holds_from last_piece scan_unsigned ip_of
number_table = refl

pub get_ip_num-ip_of : (i : ℕ) (m : Machine Vars) → i < 1024 → get_ip_num (ip_of i) m ≡ ok i m
unfolding get_ip_num
get_ip_num-ip_of i m h =
    let (rest, e) = reads_as-some _ i (
      holds_from-at (λ j. reads_as (scan_unsigned (last_piece [] (ip_of j))) j) 0 1024 i
        number_table (omega arith) h) in
    rw e

-- The search finds a number that is free and within the table.
free_from-free :
    (i : ℕ) (xs : List Bool) (n : ℕ)
    → free_from i xs ≡ some n
    → (j : ℕ) × (n ≡ i + j) × (get_elem? xs j ≡ some false)
unfolding free_from
free_from-free i [] n h = absurd (cc)
free_from-free i (false ∷ xs) n h = (0, ground arith, refl)
free_from-free i (true ∷ xs) n h =
    let (j, e, g) = free_from-free (suc i) xs n h in (suc j, omega arith, g)

pub free_number-free :
    (xs : List Bool) (n : ℕ) → free_number xs ≡ some n → get_elem? xs n ≡ some false
unfolding free_number
free_number-free [] n h = absurd (cc)
free_number-free (a ∷ []) n h = absurd (cc)
free_number-free (a ∷ b ∷ xs) n h =
    let (j, e, g) = free_from-free 2 xs n h in let f : n ≡ suc (suc j) = omega arith in rw f g

-- The calls of readThread for a client without an address, in its order, and the lookup of the
-- thread that reads the tun device.
abbrev pub register : ℕ → Command (Option ℕ)
register client = get_free_ip >>= λ ip.
    set_ip_status ip true >> (set_connection_with_ip ip client >> get_connection_by_ip ip)

-- Two threads that both look for a free address before either has taken it.
abbrev pub race : Command (Unit {0})
race = get_free_ip >>= λ a. get_free_ip >>= λ b. set_ip_status a true >> set_ip_status b true

module _ (i : ℕ) (m : Machine Vars) (unheld : m.vars.locked ≡ false)
    (size : length m.vars.status ≡ 1024) (free : free_number m.vars.status ≡ some i) where
  below : i < 1024
  below = omega (arith, size, get_elem?-lt m.vars.status i (free_number-free m.vars.status i free))

  now_used : get_elem? (set m.vars.status i true) i ≡ some true
  now_used = get_elem?-set_self m.vars.status i true (omega (arith, below, size))

  -- In a table of 1024 entries with a free number and the mutex not held, the calls of the
  -- reading thread for a client without an address, which find a free address, mark it as used
  -- and enter the client, return, and the lookup of that address then gives the client.
  pub get_connection_by_ip-register :
      (client : ℕ) → Returns (λ r n. r ≡ some client) (register client m)
  unfolding get_free_ip lock unlock set_ip_status status_at set_status set_connection_with_ip
      get_connection_by_ip connect_ip connection_of
  get_connection_by_ip-register client =
      rw
        (
          unheld,
          free,
          get_ip_num-ip_of i _ below,
          free_number-free m.vars.status i free,
          get_ip_num-ip_of i _ below,
          now_used,
          get_ip_num-ip_of i _ below,
          now_used,
          ==-refl i,
        )
        (returns refl)

  -- In a table of 1024 entries with a free number and the mutex not held, when two threads both
  -- look for a free address before either marks it as used and then both mark what they found,
  -- the run ends in a fault.
  pub same_address_twice : race m ≡ fault
  unfolding get_free_ip lock unlock set_ip_status status_at set_status
  same_address_twice =
      rw
        (
          unheld,
          free,
          free,
          get_ip_num-ip_of i _ below,
          free_number-free m.vars.status i free,
          get_ip_num-ip_of i _ below,
          now_used,
        )
        refl
