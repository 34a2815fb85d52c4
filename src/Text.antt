-- ===== src/Text.antt =====
-- Decimal numbers and dotted addresses, as sprintf("%d"), sscanf("%d") and inet_pton do them.
mod Tests
use over.Base.{
  ℕ, zero, suc, ◌+◌, ◌-◌, ◌*◌, ◌/◌, ◌%◌, Bool, true, false, ◌&&◌, ◌||◌, Option, none, some, List,
  [], ◌∷◌, ◌++◌, ltb, leb, ◌==◌, if◌then◌else◌,
}
use over.Kernel.{Bytes}
use Prim.Native.Char.{code}
use Prim.Native.String.{String}

-- The bytes of an ASCII text.
abbrev pub codes : String → Bytes
codes String.[] = []
codes (String.◌∷◌ c s) = code c ∷ codes s

-- "%d" of a number below 10 ^ fuel.
decimal_loop : ℕ → ℕ → Bytes
decimal_loop zero n = []
decimal_loop (suc f) n =
    let more = decimal_loop f (n / 10) ++ (48 + n % 10) ∷ [] in
    if ltb n 10 then (48 + n) ∷ [] else more

-- An `int` has ten digits at most.
unfoldable pub decimal : ℕ → Bytes
unfolding decimal_loop
decimal n = decimal_loop 10 n

abbrev pub is_digit : ℕ → Bool
is_digit c = leb 48 c && leb c 57

-- The digits at the front, as a number, and what follows them.
unfoldable pub scan_digits : ℕ → Bytes → ℕ × Bytes
scan_digits acc [] = (acc, [])
scan_digits acc (c ∷ cs) =
    let rest = scan_digits (acc * 10 + (c - 48)) cs in if is_digit c then rest else (acc, c ∷ cs)

-- isspace
abbrev pub is_space : ℕ → Bool
is_space c = (c == 32) || (leb 9 c && leb c 13)

unfoldable pub skip_space : Bytes → Bytes
skip_space [] = []
skip_space (c ∷ cs) = let rest = skip_space cs in if is_space c then rest else c ∷ cs

-- A run of digits, at least one.
unfoldable pub scan_unsigned : Bytes → Option (ℕ × Bytes)
unfolding scan_digits
scan_unsigned [] = none
scan_unsigned (c ∷ cs) = if is_digit c then some (scan_digits 0 (c ∷ cs)) else none

-- A byte less: what the cast of -n to uint8_t gives.
abbrev pub negated : Option (ℕ × Bytes) → Option (ℕ × Bytes)
negated none = none
negated (some (n, rest)) = some ((256 - n % 256) % 256, rest)

abbrev pub low_byte : Option (ℕ × Bytes) → Option (ℕ × Bytes)
low_byte none = none
low_byte (some (n, rest)) = some (n % 256, rest)

scan_sign : Bytes → Option (ℕ × Bytes)
unfolding scan_unsigned
scan_sign [] = none
scan_sign (c ∷ cs) =
    if c == 45
    then negated (scan_unsigned cs)
    else if c == 43
    then low_byte (scan_unsigned cs)
    else low_byte (scan_unsigned (c ∷ cs))

-- sscanf's "%d", cast to uint8_t.
unfoldable pub scan_int : Bytes → Option (ℕ × Bytes)
unfolding scan_sign skip_space
scan_int cs = scan_sign (skip_space cs)

-- One field of inet_pton(AF_INET, ...): no sign, no leading zero, at most 255.
unfoldable pub scan_field : Bytes → Option (ℕ × Bytes)
unfolding scan_digits
scan_field [] = none
scan_field (c ∷ cs) =
    if c == 48
    then some (0, cs)
    else if is_digit c
    then (let r = scan_digits 0 (c ∷ cs) in if leb r.0 255 then some r else none)
    else none

infixl 5 ◌>>=◌
abbrev ◌>>=◌ {ℓ κ} : {A : Type ℓ} {B : Type κ} → Option A → (A → Option B) → Option B
none >>= f = none
some a >>= f = f a

-- The character expected.
abbrev pub expect : ℕ → Bytes → Option Bytes
expect c [] = none
expect c (x ∷ xs) = if x == c then some xs else none

abbrev at_end : Bytes → Option (Unit {0})
at_end [] = some tt
at_end (x ∷ xs) = none

-- The address as the number that `s_addr` holds: its bytes are in network order in memory, and the
-- machine reads the first as the lowest.
unfoldable pub inet_pton : Bytes → Option ℕ
unfolding scan_field
inet_pton cs = do
  (a, cs) ← scan_field cs
  cs ← expect b'.' cs
  (b, cs) ← scan_field cs
  cs ← expect b'.' cs
  (c, cs) ← scan_field cs
  cs ← expect b'.' cs
  (d, cs) ← scan_field cs
  _ ← at_end cs
  some (a + 256 * (b + 256 * (c + 256 * d)))

-- sscanf(text, "%d.%d.%d.%d") with all four fields cast to uint8_t; `none` where a field is missing.
unfoldable pub scan_quad : Bytes → Option Bytes
unfolding scan_int
scan_quad cs = do
  (a, cs) ← scan_int cs
  cs ← expect b'.' cs
  (b, cs) ← scan_int cs
  cs ← expect b'.' cs
  (c, cs) ← scan_int cs
  cs ← expect b'.' cs
  (d, _) ← scan_int cs
  some (a ∷ b ∷ c ∷ d ∷ [])
