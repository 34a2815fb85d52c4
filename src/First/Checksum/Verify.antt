-- ===== src/First/Checksum/Verify.antt =====
-- A header that carries its checksum has the checksum 0.
use over.Base.{
  ℕ, zero, suc, ◌+◌, ◌*◌, ◌/◌, ◌%◌, ◌^◌, ◌<◌, ◌≤◌, ◌≡◌, ◌∙◌, [], ◌∷◌, ◌++◌, arith, length,
}
use over.Kernel.{Bytes}
use over.First.Checksum.{sum_words, fold_carries, in_cksum}

-- The sum without the limit of 32 bits.
word_sum : Bytes → ℕ
word_sum [] = 0
word_sum (a ∷ []) = a
word_sum (a ∷ b ∷ rest) = a + 256 * b + word_sum rest

sum_words-word_sum :
    (sum : ℕ) (bs : Bytes) → sum + word_sum bs < 2 ^ 32 → sum_words sum bs ≡ sum + word_sum bs
unfolding sum_words word_sum
sum_words-word_sum sum [] h = omega arith
sum_words-word_sum sum (a ∷ []) h = omega arith
sum_words-word_sum sum (a ∷ b ∷ rest) h =
    let e : (sum + (a + 256 * b)) % 2 ^ 32 ≡ sum + (a + 256 * b) = omega arith in
    rw e (omega (arith, sum_words-word_sum (sum + (a + 256 * b)) rest (omega arith)))

abbrev pub IsOctets : Bytes → Type 0
IsOctets [] = Unit
IsOctets (b ∷ bs) = (b < 256) × IsOctets bs

word_sum-le : (bs : Bytes) → IsOctets bs → word_sum bs ≤ 65535 * length bs
unfolding word_sum
word_sum-le [] h = omega arith
word_sum-le (a ∷ []) h = omega arith
word_sum-le (a ∷ b ∷ rest) h = omega (arith, word_sum-le rest h.1.1)

-- The value of a word in an even place counts in full.
word_sum-append :
    (pre post : Bytes) (n : ℕ)
    → length pre ≡ n + n
    → word_sum (pre ++ post) ≡ word_sum pre + word_sum post
unfolding word_sum
word_sum-append [] post n h = omega arith
word_sum-append (a ∷ []) post zero h = absurd (omega arith)
word_sum-append (a ∷ []) post (suc n) h = absurd (omega arith)
word_sum-append (a ∷ b ∷ pre) post zero h = absurd (omega arith)
word_sum-append (a ∷ b ∷ pre) post (suc n) h =
    omega (arith, word_sum-append pre post n (omega arith))

fold_carries-complement :
    (s : ℕ)
    → s + 65535 < 2 ^ 32
    → (fold_carries s < 65536) × (fold_carries (s + fold_carries s) ≡ 0)
unfolding fold_carries
fold_carries-complement s h = omega arith

module _ (pre post : Bytes) (n : ℕ) (even : length pre ≡ n + n) where
  field_sum :
      (c : ℕ)
      → c < 65536
      → word_sum (pre ++ c % 256 ∷ c / 256 ∷ post) ≡ word_sum (pre ++ 0 ∷ 0 ∷ post) + c
  unfolding word_sum
  field_sum c small = omega (
    arith,
    word_sum-append pre (c % 256 ∷ c / 256 ∷ post) n even,
    word_sum-append pre (0 ∷ 0 ∷ post) n even,
  )

  -- For an even number of octets and any number of octets behind them, at most 65534 together,
  -- the checksum that in_cksum computes with two zero octets between them is below 2^16, and
  -- when it is stored there, its low byte first, in_cksum of the whole is 0.
  pub in_cksum-verify :
      IsOctets pre
      → IsOctets post
      → length pre + length post ≤ 65534
      → let c = in_cksum (pre ++ 0 ∷ 0 ∷ post) in
        (c < 65536) × (in_cksum (pre ++ c % 256 ∷ c / 256 ∷ post) ≡ 0)
  unfolding in_cksum word_sum
  in_cksum-verify octets more short =
      let zero_sum : word_sum (pre ++ 0 ∷ 0 ∷ post) ≡ word_sum pre + word_sum post =
        omega (arith, word_sum-append pre (0 ∷ 0 ∷ post) n even) in
      let small : word_sum (pre ++ 0 ∷ 0 ∷ post) + 65535 < 2 ^ 32 =
        omega (arith, zero_sum, word_sum-le pre octets, word_sum-le post more) in
      let plain : sum_words 0 (pre ++ 0 ∷ 0 ∷ post) ≡ word_sum (pre ++ 0 ∷ 0 ∷ post) =
        sum_words-word_sum 0 (pre ++ 0 ∷ 0 ∷ post) (omega arith) ∙ omega arith in
      let (bound, done) = fold_carries-complement (word_sum (pre ++ 0 ∷ 0 ∷ post)) small in
      let c = fold_carries (word_sum (pre ++ 0 ∷ 0 ∷ post)) in
      let filled : sum_words 0 (pre ++ c % 256 ∷ c / 256 ∷ post)
          ≡ word_sum (pre ++ 0 ∷ 0 ∷ post) + c =
        sum_words-word_sum 0 (pre ++ c % 256 ∷ c / 256 ∷ post) (omega (arith, field_sum c bound))
        ∙ omega (arith, field_sum c bound) in
      rw (plain, filled) (bound, done)
