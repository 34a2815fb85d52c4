-- ===== src/Wire.antt =====
-- The five bytes in front of every message: `struct message`, packed, of server_util.h.
pub mod RoundTrip
use over.Base.{ℕ, zero, suc, ◌+◌, ◌*◌, ◌/◌, ◌%◌, ◌^◌, List, [], ◌∷◌, ◌++◌, length, ℤ, signed32}
use over.Kernel.{Bytes}

-- The byte at an index, zero behind the end of the list.
abbrev pub byte_at : Bytes → ℕ → ℕ
byte_at [] i = 0
byte_at (b ∷ bs) zero = b
byte_at (b ∷ bs) (suc i) = byte_at bs i

-- A 32-bit word in memory, the low byte first.
unfoldable pub u32_at : Bytes → ℕ → ℕ
u32_at bs i =
    byte_at bs i
    + 256 * (byte_at bs (i + 1) + 256 * (byte_at bs (i + 2) + 256 * byte_at bs (i + 3)))

unfoldable pub u32_bytes : ℕ → Bytes
u32_bytes w = w % 256 ∷ w / 256 % 256 ∷ w / 65536 % 256 ∷ w / 16777216 % 256 ∷ []

pub record Header : Type 0 where
  -- the bit pattern of `int length`
  pub word : ℕ
  pub type : ℕ

-- sizeof(message)
abbrev pub header_size : ℕ
header_size = 5

-- `*(message *)buf`
unfoldable pub read_header : Bytes → Header
unfolding u32_at
read_header buf = record { word = u32_at buf 0; type = byte_at buf 4 }

unfoldable pub header_length : Header → ℤ
unfolding signed32
header_length h = signed32 h.word

-- The bytes of a `message` with this length and type.
unfoldable pub header_bytes : ℕ → ℕ → Bytes
unfolding u32_bytes
header_bytes len type = u32_bytes (len % 2 ^ 32) ++ type ∷ []

-- A whole message: the length counts the header too.
unfoldable pub frame : ℕ → Bytes → Bytes
unfolding header_bytes
frame type body = header_bytes (length body + header_size) type ++ body
