-- ===== src/Base/Int.antt =====
-- The C `int` as a pattern of 32 bits and the integer that it stands for.
use Prim.Native.Nat.{ℕ, ◌-◌, ◌^◌, ◌<◌}
use mathlib.Core.Path.{◌≡◌}
use native.Mathlib.Omega.{arith}
use over.Base.Tests.{ltb, if◌then◌else◌}

-- `negsuc n` is -(n + 1).
pub data ℤ : Type 0 where
  pos : ℕ → ℤ
  negsuc : ℕ → ℤ

unfoldable pub signed32 : ℕ → ℤ
signed32 w = if ltb w (2 ^ 31) then pos w else negsuc (2 ^ 32 - w - 1)

pub signed32-pos : (w : ℕ) → w < 2 ^ 31 → signed32 w ≡ pos w
unfolding signed32
signed32-pos w h = ground arith

-- The two cases of an `int`, negative and not.
abbrev pub match_int {ℓ} : {B : Type ℓ} → ℤ → (ℕ → B) → (ℕ → B) → B
match_int (pos n) f g = f n
match_int (negsuc n) f g = g n
