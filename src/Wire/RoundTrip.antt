-- ===== src/Wire/RoundTrip.antt =====
-- Reading back the header that the programs write.
use over.Base.{
  ◌+◌, append_assoc, length, ◌-◌, take, drop, drop-append, take-append, sym, ℕ, signed32, ◌∙◌, ◌%◌,
  ◌∷◌, [], ◌<◌, ◌^◌, ◌≡◌, ◌++◌, arith, pos, refl, signed32-pos, ap,
}
use over.Kernel.{Bytes}
use over.Wire.{frame, header_size, u32_bytes, u32_at, header_bytes, read_header, header_length}

pub u32_at-u32_bytes : (w : ℕ) (rest : Bytes) → w < 2 ^ 32 → u32_at (u32_bytes w ++ rest) 0 ≡ w
unfolding u32_at u32_bytes
u32_at-u32_bytes w rest h = omega arith

-- A header that was written with a length below 2^31 is read back, whatever bytes follow it,
-- with that length as a non-negative int and with its type.
pub read_header-header_bytes :
    (len type : ℕ) (rest : Bytes)
    → len < 2 ^ 31
    → (header_length (read_header (header_bytes len type ++ rest)) ≡ pos len)
      × ((read_header (header_bytes len type ++ rest)).type ≡ type)
unfolding read_header header_bytes header_length
read_header-header_bytes len type rest h = (ap signed32 (word len h) ∙ signed32-pos len h, refl)
  where
    word : (n : ℕ) → n < 2 ^ 31 → u32_at (u32_bytes (n % 2 ^ 32) ++ type ∷ [] ++ rest) 0 ≡ n
    word n lt = u32_at-u32_bytes (n % 2 ^ 32) (type ∷ [] ++ rest) (omega arith) ∙ omega arith

pub length-header_bytes : (len type : ℕ) → length (header_bytes len type) ≡ header_size
unfolding header_bytes u32_bytes
length-header_bytes len type = refl

-- A whole message at the front of a buffer.
module _ (type : ℕ) (body rest : Bytes) where
  frame-split :
      frame type body ++ rest ≡ header_bytes (length body + header_size) type ++ (body ++ rest)
  unfolding frame
  frame-split = append_assoc (header_bytes (length body + header_size) type) body rest

  pub length-frame : length (frame type body) ≡ length body + header_size
  unfolding frame header_bytes
  length-frame = omega arith

  pub header_length-frame :
      length body + header_size < 2 ^ 31
      → header_length (read_header (frame type body ++ rest)) ≡ pos (length body + header_size)
  header_length-frame h =
      rw frame-split (read_header-header_bytes (length body + header_size) type (body ++ rest) h).0

  pub header_type-frame :
      length body + header_size < 2 ^ 31 → (read_header (frame type body ++ rest)).type ≡ type
  header_type-frame h =
      rw frame-split (read_header-header_bytes (length body + header_size) type (body ++ rest) h).1

  pub take-drop-frame :
      take (length body + header_size - header_size) (drop header_size (frame type body ++ rest))
      ≡ body
  take-drop-frame =
      rw
        (
          frame-split,
          drop-append header_size (header_bytes (length body + header_size) type) (body ++ rest)
              (sym (length-header_bytes (length body + header_size) type)),
        )
        (take-append (length body + header_size - header_size) body rest (omega arith))

  pub drop-frame : drop (length body + header_size) (frame type body ++ rest) ≡ rest
  drop-frame = drop-append (length body + header_size) (frame type body) rest (sym length-frame)
