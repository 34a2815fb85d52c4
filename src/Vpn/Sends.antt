-- ===== src/Vpn/Sends.antt =====
-- What a run of single writes does to the stream of bytes that the descriptor takes.
use over.Base.{
  ℕ, ◌≡◌, inl, inr, refl, sym, ap, ◌∙◌, Bool, true, false, Option, none, some, List, [], ◌∷◌, ◌++◌,
  arith, length, take, append_assoc, append-nil, take-length, ==-refl, Bool-cases, drop,
  take-append-drop, subst,
}
use over.Kernel.{Fd, Bytes, Kernel, sent, cut_short, writes}
use over.Io.Delivery.{Sends}
use over.Run.{Machine, Returns, returns, mono}
use over.Vpn.State.{Vars, wrote}
use over.Vpn.Socket.{write_each}

unfoldable pub joined : List Bytes → Bytes
joined [] = []
joined (b ∷ bs) = b ++ joined bs

module _ (k : Kernel) (fd : Fd) where
  -- After a block that was taken whole.
  Sends-step :
      (b : Bytes) (bs : Bytes) (m : Machine Vars) (r : Bool) (n : Machine Vars)
      → Sends cut_short fd bs (record m { log = writes fd b (some (length b)) ∷ m.log }) r n
      → Sends cut_short fd (b ++ bs) m r n
  unfolding sent cut_short
  Sends-step b bs m r n d = record {
    same = d.same;
    others = λ f ne. ground (arith, d.others f ne);
    stopped = λ e. ground (arith, d.stopped e, ==-refl fd);
    went_on = λ e. ground (arith, d.went_on e, ==-refl fd);
    outcome = elim d.outcome [
      | inl (e, s) ↦ inl (e, s ∙ rw (==-refl fd, take-length b) (append_assoc (sent fd m.log) b bs))
      | inr (e, part, behind, p, s) ↦ inr (
        e,
        b ++ part,
        behind,
        append_assoc b part behind ∙ ap (◌++◌ b) p,
        s ∙ rw (==-refl fd, take-length b) (append_assoc (sent fd m.log) b part),
      )
    ];
  }

  -- A block of which the kernel takes something else than the whole ends the run.
  Sends-short :
      (b : Bytes) (bs : Bytes) (m : Machine Vars) (a : Option ℕ)
      → wrote a (length b) ≡ false
      → Sends cut_short fd (b ++ bs) m false (record m { log = writes fd b a ∷ m.log })
  unfolding sent cut_short
  Sends-short b bs m none short = record {
    same = refl;
    others = λ f ne. refl;
    stopped = λ e. rw (==-refl fd) (omega arith);
    went_on = λ e. absurd (cc);
    outcome = inr (refl, [], b ++ bs, refl, sym (append-nil _));
  }
  Sends-short b bs m (some n) short = record {
    same = refl;
    others = λ f ne. ground arith;
    stopped = λ e. rw (==-refl fd, short) (omega arith);
    went_on = λ e. absurd (cc);
    outcome = inr (
      refl,
      take n b,
      drop n b ++ bs,
      sym (append_assoc (take n b) (drop n b) bs) ∙ ap (λ x. x ++ bs) (take-append-drop n b),
      rw (==-refl fd) refl,
    );
  }

  pub write_each-Sends :
      (bs : List Bytes) (m : Machine Vars)
      → Returns (Sends cut_short fd (joined bs) m) (write_each k fd bs m)
  unfolding write_each joined
  write_each-Sends [] m = returns (record {
    same = refl;
    others = λ f ne. refl;
    stopped = λ e. absurd (cc);
    went_on = λ e. refl;
    outcome = inl (refl, sym (append-nil _));
  })
  write_each-Sends (b ∷ bs) m = elim (Bool-cases (wrote (k.write m.log fd b) (length b))) [
    | inr short ↦ rw short (returns (Sends-short b (joined bs) m (k.write m.log fd b) short))
    | inl whole ↦
        let e = wrote-eq (k.write m.log fd b) (length b) whole in
        rw (whole) (
          mono (write_each-Sends bs (record m { log = writes fd b (k.write m.log fd b) ∷ m.log }))
            λ r n d. Sends-step b (joined bs) m r n (
              subst
                (λ a. Sends cut_short fd (joined bs) (record m { log = writes fd b a ∷ m.log }) r n)
                e d))
  ]
    where
      wrote-eq : (a : Option ℕ) (n : ℕ) → wrote a n ≡ true → a ≡ some n
      wrote-eq none n h = cc
      wrote-eq (some r) n h = ground arith
