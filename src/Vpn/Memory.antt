-- ===== src/Vpn/Memory.antt =====
-- Reading and moving the bytes of socket_buffer.
use over.Base.{
  drop-drop, length-append, append_assoc, ℕ, zero, suc, ◌+◌, ◌-◌, ◌≤◌, ◌≡◌, refl, ap, sym, ◌∙◌, [],
  ◌∷◌, ◌++◌, arith, length, drop, drop-append,
}
use over.Kernel.{Bytes}
use over.Vpn.State.{Vars, take_padded, slice, overwrite}
use over.Vpn.Socket.{append, shift}

pub take_padded-drop : (n : ℕ) (bs : Bytes) → n ≤ length bs → take_padded n bs ++ drop n bs ≡ bs
unfolding take_padded
take_padded-drop zero bs h = refl
take_padded-drop (suc n) [] h = absurd (omega arith)
take_padded-drop (suc n) (b ∷ bs) h = ap (◌∷◌ b) (take_padded-drop n bs (omega arith))

pub length-take_padded : (n : ℕ) (bs : Bytes) → length (take_padded n bs) ≡ n
unfolding take_padded
length-take_padded zero bs = refl
length-take_padded (suc n) [] = ap suc (length-take_padded n [])
length-take_padded (suc n) (b ∷ bs) = ap suc (length-take_padded n bs)

pub take_padded-append :
    (xs ys : Bytes) (n : ℕ) → take_padded (length xs + n) (xs ++ ys) ≡ xs ++ take_padded n ys
unfolding take_padded
take_padded-append [] ys n = let e : zero + n ≡ n = omega arith in rw e
take_padded-append (x ∷ xs) ys n =
    let e : length (x ∷ xs) + n ≡ suc (length xs + n) = omega arith in
    rw e (ap (◌∷◌ x) (take_padded-append xs ys n))

-- Exactly the bytes in front.
pub take_padded-front : (xs ys : Bytes) → take_padded (length xs) (xs ++ ys) ≡ xs
unfolding take_padded
take_padded-front [] ys = refl
take_padded-front (x ∷ xs) ys = ap (◌∷◌ x) (take_padded-front xs ys)

-- The message in front is taken out, and what is behind it moves to the front.
pub shift-front :
    (front behind stale : Bytes) (len : ℕ) (s : Vars)
    → length front ≡ len
    → s.memory ≡ front ++ (behind ++ stale)
    → s.nreads ≡ len + length behind
    → shift len s ≡ record s {
      memory = behind ++ drop (length behind) (front ++ (behind ++ stale));
      nreads = length behind;
    }
unfolding shift slice overwrite take_padded
shift-front front behind stale len s size mem used =
    let left : len + length behind - len ≡ length behind = omega arith in
    let start : 0 + length behind ≡ length behind = omega arith in
    rw
      (
        used,
        left,
        mem,
        drop-append len front (behind ++ stale) (sym size),
        take_padded-front behind stale,
        start,
      )
      refl

-- Bytes written behind those in use take the place of the stale ones.
pub overwrite-front :
    (old stale bytes : Bytes)
    → overwrite (old ++ stale) (length old) bytes ≡ (old ++ bytes) ++ drop (length bytes) stale
unfolding overwrite
overwrite-front old stale bytes =
    let behind : drop (length old + length bytes) (old ++ stale) ≡ drop (length bytes) stale =
      drop-drop (length old) (length bytes) (old ++ stale)
      ∙ ap (drop (length bytes)) (drop-append (length old) old stale refl) in
    rw (take_padded-front old stale, behind, append_assoc old bytes (drop (length bytes) stale))
      refl

pub append-front :
    (old stale bytes : Bytes) (s : Vars)
    → s.memory ≡ old ++ stale
    → s.nreads ≡ length old
    → append bytes s ≡ record s {
      memory = (old ++ bytes) ++ drop (length bytes) stale;
      nreads = length (old ++ bytes);
    }
unfolding append
append-front old stale bytes s at used =
    rw (used, at, overwrite-front old stale bytes, length-append old bytes) refl
