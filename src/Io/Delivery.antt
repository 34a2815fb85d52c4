-- ===== src/Io/Delivery.antt =====
-- What write_all does to the stream of bytes that its descriptor takes.
use over.Base.{
  match_option, ℕ, zero, suc, ◌+◌, ◌-◌, ◌<◌, ◌≤◌, ◌≡◌, ◌≢◌, ◌⊎◌, inl, inr, refl, sym, ap, ◌∙◌, Bool,
  true, false, Option, none, some, ◌∷◌, ◌++◌, arith, ltb, length, take, drop, append_assoc,
  append-nil, drop-drop, take-append-take, take-append-drop, Bool-cases, Option-cases, ltb→lt,
  ==-refl, ne_nil_of_length, length-drop, drop-le,
}
use over.Kernel.{refused, Log, Fd, Bytes, Kernel, WritesWithin, sent, writes}
use over.Run.{Machine, Returns, returns, mono}
use over.Io.{write_loop, write_all}

-- The last system call was a write to the descriptor, which failed.
abbrev pub Fails : Fd → Log → Type 0
Fails fd l = (bytes : Bytes) × (before : Log) × (l ≡ writes fd bytes none ∷ before)

-- What a call that sends `buf` to `fd` may do: it touches no variable and no other stream, and
-- either all of `buf` is taken, or the call fails after a proper prefix of it.
pub record Delivers {S : Type 0} (fd : Fd) (buf : Bytes) (size : ℕ) (m : Machine S) (r : Option ℕ)
    (m' : Machine S) : Type 0 where
  pub same : m'.vars ≡ m.vars
  pub others : (f : Fd) → f ≢ fd → sent f m'.log ≡ sent f m.log
  pub refusals : refused fd m'.log ≡ refused fd m.log + match_option r 1 (λ x. 0)
  pub last : r ≡ none → Fails fd m'.log
  pub outcome :
      ((r ≡ some size) × (sent fd m'.log ≡ sent fd m.log ++ buf))
      ⊎ ((r ≡ none) × ((n : ℕ) × (n < length buf) × (sent fd m'.log ≡ sent fd m.log ++ take n buf)))

-- After `write` has taken `n` bytes, what is left is delivered like a shorter block.
Delivers-step :
    {S : Type 0} (fd : Fd) (buf : Bytes) (size n : ℕ) (m : Machine S) (r : Option ℕ)
    (m' : Machine S)
    → n ≤ length buf
    → Delivers fd (drop n buf) size (record m { log = writes fd buf (some n) ∷ m.log }) r m'
    → Delivers fd buf size m r m'
unfolding sent refused
Delivers-step fd buf size n m r m' le d = record {
  same = d.same;
  others = λ f ne. ground (arith, d.others f ne);
  refusals = d.refusals;
  last = d.last;
  outcome = elim d.outcome [
    | inl (e, s) ↦ inl (
      e,
      s
          ∙ rw (==-refl fd) (append_assoc (sent fd m.log) (take n buf) (drop n buf))
          ∙ ap (◌++◌ (sent fd m.log)) (take-append-drop n buf),
    )
    | inr (e, (j, lt, s)) ↦ inr (
      e,
      (
        n + j,
        omega (arith, length-drop n buf),
        s
            ∙ rw (==-refl fd) (append_assoc (sent fd m.log) (take n buf) (take j (drop n buf)))
            ∙ ap (◌++◌ (sent fd m.log)) (take-append-take n j buf),
      ),
    )
  ];
}

module _ (k : Kernel) (fits : WritesWithin k) {S : Type 0} (fd : Fd) (buf : Bytes) where
  write_loop-Delivers :
      (f offset : ℕ) (m : Machine S)
      → length buf - offset < f
      → offset ≤ length buf
      → Returns (Delivers fd (drop offset buf) (length buf) m) (write_loop k f fd buf offset m)
  unfolding write_loop sent refused
  write_loop-Delivers zero offset m fuel le = absurd (omega arith)
  write_loop-Delivers (suc f) offset m fuel le = elim (Bool-cases (ltb offset (length buf))) [
    | inr done ↦
        let e : offset ≡ length buf = ground arith in
        rw done (
          returns (record {
            same = refl;
            others = λ g ne. refl;
            refusals = omega arith;
            last = λ bad. absurd (cc);
            outcome = inl (ap some e, rw (drop-le offset buf (omega arith)) (sym (append-nil _)));
          }))
    | inl more ↦ rw more (elim (Option-cases (k.write m.log fd (drop offset buf))) [
      | inl failed ↦ rw failed (
          returns (record {
            same = refl;
            others = λ g ne. refl;
            refusals = rw (==-refl fd) (omega arith);
            last = λ bad. (_, _, refl);
            outcome = inr (
              refl,
              (
                0,
                omega (arith, ltb→lt offset (length buf) more, length-drop offset buf),
                sym (append-nil _),
              ),
            );
          }))
      | inr (n, took) ↦
          let left : 0 < length (drop offset buf) =
            omega (arith, ltb→lt offset (length buf) more, length-drop offset buf) in
          let fit = fits m.log fd (drop offset buf) n (ne_nil_of_length _ left) took in
          rw took (
            mono
              (write_loop-Delivers f (offset + n) _ (omega (arith, ltb→lt offset (length buf) more))
                (omega (arith, length-drop offset buf)))
              (λ r m' d.
                Delivers-step fd (drop offset buf) (length buf) n m r m' fit.1
                  (rw (← drop-drop offset n buf) d)))
    ])
  ]

  -- If write fails or takes between one byte and the whole of a block that is not empty,
  -- write_all returns, touches no variable and no other stream, and either reports the size and
  -- the descriptor's stream has grown by exactly the block, and no write to it has failed
  -- meanwhile, or one has, and it reports failure after a proper prefix of the block.
  pub write_all-Delivers :
      (m : Machine S) → Returns (Delivers fd buf (length buf) m) (write_all k fd buf m)
  unfolding write_all
  write_all-Delivers m = write_loop-Delivers (suc (length buf)) 0 m (omega arith) (omega arith)

-- A call that has failed has had one write refused.
pub Delivers-refused :
    {S : Type 0} (fd : Fd) (buf : Bytes) (size : ℕ) (m : Machine S) (r : Option ℕ) (n : Machine S)
    → Delivers fd buf size m r n
    → r ≡ none
    → refused fd n.log ≡ 1 + refused fd m.log
Delivers-refused fd buf size m none n d e = omega (arith, d.refusals)
Delivers-refused fd buf size m (some w) n d e = absurd (cc)

pub Delivers-taken :
    {S : Type 0} (fd : Fd) (buf : Bytes) (size : ℕ) (m : Machine S) (r : Option ℕ) (n : Machine S)
    → Delivers fd buf size m r n
    → {w : ℕ} → r ≡ some w
    → refused fd n.log ≡ refused fd m.log
Delivers-taken fd buf size m none n d e = absurd (cc)
Delivers-taken fd buf size m (some w) n d e = omega (arith, d.refusals)

-- Nothing but one descriptor's stream changes, which grows by all the blocks, or, when the count of
-- its writes that went wrong has grown, and not otherwise, by a part of them from the front.
pub record Sends {S : Type 0} (wrong : Fd → Log → ℕ) (fd : Fd) (bytes : Bytes) (m : Machine S)
    (r : Bool) (n : Machine S) : Type 0 where
  pub same : n.vars ≡ m.vars
  pub others : (f : Fd) → f ≢ fd → sent f n.log ≡ sent f m.log
  pub stopped : r ≡ false → wrong fd m.log < wrong fd n.log
  pub went_on : r ≡ true → wrong fd n.log ≡ wrong fd m.log
  pub outcome :
      ((r ≡ true) × (sent fd n.log ≡ sent fd m.log ++ bytes))
      ⊎ ((r ≡ false)
          × (part : Bytes) × (behind : Bytes) × (part ++ behind ≡ bytes)
          × (sent fd n.log ≡ sent fd m.log ++ part))
