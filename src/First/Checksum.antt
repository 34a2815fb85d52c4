-- ===== src/First/Checksum.antt =====
-- in_cksum: the checksum of an IPv4 header. The machine reads the low byte of a word first.
pub mod Verify
use over.Base.{ℕ, ◌+◌, ◌-◌, ◌*◌, ◌/◌, ◌%◌, ◌^◌, List, [], ◌∷◌}
use over.Kernel.{Bytes}

-- The first loop and the odd byte behind it; `sum` is a uint32_t.
unfoldable pub sum_words : ℕ → Bytes → ℕ
sum_words sum [] = sum
sum_words sum (a ∷ []) = (sum + a) % 2 ^ 32
sum_words sum (a ∷ b ∷ rest) = sum_words ((sum + (a + 256 * b)) % 2 ^ 32) rest

-- The carries are added back, twice, and the result is inverted in 16 bits.
unfoldable pub fold_carries : ℕ → ℕ
fold_carries sum = let once = sum / 65536 + sum % 65536 in 65535 - (once + once / 65536) % 65536

unfoldable pub in_cksum : Bytes → ℕ
unfolding sum_words fold_carries
in_cksum bytes = fold_carries (sum_words 0 bytes)
