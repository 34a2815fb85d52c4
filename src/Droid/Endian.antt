-- ===== src/Droid/Endian.antt =====
-- endian_little_to_local_32 and endian_local_to_little_32. Elsewhere their results are u32_at of the
-- bytes in memory and the bytes u32_bytes.
use over.Base.{ℕ, zero, suc, ◌+◌, ◌*◌, ◌/◌, ◌%◌, ◌^◌, ◌<◌, ◌≡◌, [], ◌∷◌, arith}
use over.Kernel.{Bytes}
use over.Wire.{byte_at, u32_at, u32_bytes}

-- `n` rounds of the loop, from round `i` on; `ret` is a uint32_t.
unfoldable pub add_bytes : ℕ → ℕ → Bytes → ℕ → ℕ
add_bytes zero i buffer ret = ret
add_bytes (suc n) i buffer ret =
    add_bytes n (i + 1) buffer ((ret + byte_at buffer i * 2 ^ (8 * i)) % 2 ^ 32)

unfoldable pub endian_little_to_local_32 : ℕ → ℕ
unfolding add_bytes u32_bytes
endian_little_to_local_32 val = add_bytes 4 0 (u32_bytes val) 0

-- The bytes that `n` rounds of the loop store.
unfoldable pub store_bytes : ℕ → ℕ → Bytes
store_bytes zero val = []
store_bytes (suc n) val = val % 256 ∷ store_bytes n (val / 256)

unfoldable pub endian_local_to_little_32 : ℕ → ℕ
unfolding store_bytes u32_at
endian_local_to_little_32 val = u32_at (store_bytes 4 val) 0

-- On the machine, which has the low byte first, neither changes the number.
pub endian_little_to_local_32-same : (val : ℕ) → val < 2 ^ 32 → endian_little_to_local_32 val ≡ val
unfolding endian_little_to_local_32 add_bytes u32_bytes
endian_little_to_local_32-same val h = omega arith

pub endian_local_to_little_32-same : (val : ℕ) → val < 2 ^ 32 → endian_local_to_little_32 val ≡ val
unfolding endian_local_to_little_32 store_bytes u32_at
endian_local_to_little_32-same val h = omega arith
