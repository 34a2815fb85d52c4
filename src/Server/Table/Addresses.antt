-- ===== src/Server/Table/Addresses.antt =====
-- The texts that sprintf makes are read back by inet_pton, for every entry of the table.
use over.Base.{
  ℕ, ◌<◌, ◌≡◌, refl, Bool, true, false, Option, none, some, ◌==◌, arith, holds_from, holds_from-at,
}
use over.Text.{inet_pton}
use over.Server.Boot.{slot_addr}
use over.Server.Table.{slot_number}

abbrev is_number : Option ℕ → ℕ → Bool
is_number none n = false
is_number (some a) n = a == n

is_number-eq : (o : Option ℕ) (n : ℕ) → is_number o n ≡ true → o ≡ some n
is_number-eq none n h = cc
is_number-eq (some a) n h = ground arith

slot_table : holds_from (λ i. is_number (inet_pton (slot_addr i)) (slot_number i)) 0 256 ≡ true
unfolding holds_from inet_pton slot_addr
slot_table = refl

pub inet_pton-slot_addr : (i : ℕ) → i < 256 → inet_pton (slot_addr i) ≡ some (slot_number i)
inet_pton-slot_addr i h = is_number-eq _ _ (holds_from-at _ 0 256 i slot_table (omega arith) h)
