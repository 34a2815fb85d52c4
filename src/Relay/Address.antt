-- ===== src/Relay/Address.antt =====
-- The table of addresses of clientConnection.cpp: getIpNum, setIpStatus, getConnectionByIp,
-- setConnectionWithIp and getFreeIP. An exception, a failed assertion and an access out of bounds
-- are faults, and so is the lock of a mutex by the thread that holds it.

use over.Base.{
  ℕ, suc, Bool, true, false, not, Option, none, some, List, [], ◌∷◌, ◌++◌, ◌==◌, if◌then◌else◌,
  match_option, get_elem?, set,
}
use over.Kernel.{Bytes}
use over.Run.{ok, fault, pure, get_vars, put_vars, ◌>>=◌, ◌>>◌}
use over.Text.{codes, decimal, scan_unsigned}
use over.Relay.State.{Vars, Command}

-- What is left in `s` after the last getline: the text behind the last dot.
unfoldable pub last_piece : Bytes → Bytes → Bytes
last_piece piece [] = piece
last_piece piece (c ∷ cs) = if c == 46 then last_piece [] cs else last_piece (piece ++ c ∷ []) cs

unfoldable pub get_ip_num : Bytes → Command ℕ
unfolding last_piece scan_unsigned
get_ip_num addr = match_option (scan_unsigned (last_piece [] addr)) (λ m. fault) (λ r. pure r.0)

unfoldable pub lock : Command (Unit {0})
lock m = if m.vars.locked then fault else put_vars (record (m.vars) { locked = true }) m

unfoldable pub unlock : Command (Unit {0})
unlock m = put_vars (record (m.vars) { locked = false }) m

unfoldable pub status_at : ℕ → Command Bool
status_at i m = match_option (get_elem? m.vars.status i) fault (λ b. ok b m)

unfoldable pub set_status : ℕ → Bool → Command (Unit {0})
set_status i b m = put_vars (record (m.vars) { status = set m.vars.status i b }) m

-- `a != b` on bool
abbrev pub differ : Bool → Bool → Bool
differ true b = not b
differ false b = b

unfoldable pub set_ip_status : Bytes → Bool → Command (Unit {0})
unfolding get_ip_num lock unlock status_at set_status
set_ip_status addr s = do
  lock
  num ← get_ip_num addr
  old ← status_at num
  if differ old s then (set_status num s >> unlock) else (λ m. fault)

-- connections[num] on the map; a key without an entry is a null pointer.
unfoldable pub connection_of : ℕ → List (ℕ × ℕ) → Option ℕ
connection_of num [] = none
connection_of num ((key, client) ∷ rest) =
    let behind = connection_of num rest in if key == num then some client else behind

unfoldable pub get_connection_by_ip : Bytes → Command (Option ℕ)
unfolding get_ip_num lock unlock status_at connection_of
get_connection_by_ip addr = do
  lock
  num ← get_ip_num addr
  used ← status_at num
  s ← get_vars
  unlock
  pure (if used then connection_of num s.connections else none)

unfoldable pub connect_ip : ℕ → ℕ → Vars → Vars
connect_ip num client s = record s { connections = (num, client) ∷ s.connections }

-- setIpStatus locks the mutex that is held here.
unfoldable pub set_connection_with_ip : Bytes → ℕ → Command (Unit {0})
unfolding get_ip_num lock unlock status_at set_ip_status connect_ip
set_connection_with_ip addr client = do
  lock
  num ← get_ip_num addr
  used ← status_at num
  if used then pure tt else set_ip_status addr true
  s ← get_vars
  put_vars (connect_ip num client s)
  unlock

-- The first free number from 2 on; an access behind the array does not happen.
unfoldable pub free_from : ℕ → List Bool → Option ℕ
free_from i [] = none
free_from i (used ∷ rest) = let later = free_from (suc i) rest in if used then later else some i

unfoldable pub free_number : List Bool → Option ℕ
unfolding free_from
free_number [] = none
free_number (a ∷ []) = none
free_number (a ∷ b ∷ rest) = free_from 2 rest

unfoldable pub ip_of : ℕ → Bytes
unfolding decimal
ip_of i = codes "10.128.0." ++ decimal i

-- With no free number left the program exits.
unfoldable pub get_free_ip : Command Bytes
unfolding lock unlock free_number ip_of
get_free_ip = do
  lock
  s ← get_vars
  unlock
  match_option (free_number s.status) (λ m. fault) (λ i. pure (ip_of i))
