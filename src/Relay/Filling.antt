-- ===== src/Relay/Filling.antt =====
-- The reading loops of readThread against the bytes of a stream.
use over.Base.{
  ℕ, zero, suc, ◌+◌, ◌-◌, ◌<◌, ◌≤◌, ◌≡◌, refl, sym, ap, ◌∙◌, Bool, true, false, some, [], ◌∷◌, ◌++◌,
  arith, ltb, length, take, drop, append_assoc, append-nil, length-append, length-take, length-drop,
  take-append-le, take-append-drop, ==-refl,
}
use over.Kernel.{Fd, Bytes, Kernel, Feeds, reads, sent, taken}
use over.Run.{Machine, Returns, returns, mono}
use over.Relay.State.{Vars}
use over.Relay.Reader.{read_loop, data_string}

pub data_string-append :
    (xs ys : Bytes) (n : ℕ) → data_string (length xs + n) (xs ++ ys) ≡ xs ++ data_string n ys
unfolding data_string
data_string-append [] ys n = let e : zero + n ≡ n = omega arith in rw e refl
data_string-append (x ∷ xs) ys n =
    let e : length (x ∷ xs) + n ≡ suc (length xs + n) = omega arith in
    rw e (ap (◌∷◌ x) (data_string-append xs ys n))

-- The loop has read these bytes.
pub record Fills (fd : Fd) (got wanted : Bytes) (m : Machine Vars) (r : Bool × Bytes)
    (e : Machine Vars) : Type 0 where
  pub result : r ≡ (true, got ++ wanted)
  pub read : taken fd e.log ≡ taken fd m.log ++ wanted
  pub same : e.vars ≡ m.vars
  pub quiet : (g : Fd) → sent g e.log ≡ sent g m.log

module _ (k : Kernel) (fd : Fd) (stream : Bytes) (feeds : Feeds k fd stream) where
  -- A read of `wanted` gives some of it.
  next_read :
      (count : ℕ) (wanted rest : Bytes) (m : Machine Vars)
      → stream ≡ taken fd m.log ++ (wanted ++ rest)
      → length wanted ≡ count
      → 0 < count
      → (j : ℕ) × (k.read m.log fd count ≡ some (take j wanted)) × (0 < j) × (j ≤ length wanted)
  next_read count wanted rest m come size more =
      let (j, e, some_byte, asked, there) =
        feeds m.log count (wanted ++ rest) come more (omega (arith, length-append wanted rest)) in
      let within : j ≤ length wanted = omega arith in
      (j, e ∙ ap some (take-append-le j wanted rest within), some_byte, within)

  -- One read of the loop, with the rest of the loop behind it.
  join_read :
      (got wanted : Bytes) (j : ℕ) (m : Machine Vars) (r : Bool × Bytes) (e : Machine Vars)
      → Fills fd
          (got ++ take j wanted)
          (drop j wanted)
          (record m { log = reads fd (some (take j wanted)) ∷ m.log })
          r
          e
      → Fills fd got wanted m r e
  unfolding taken sent
  join_read got wanted j m r e d = record {
    result =
        d.result
        ∙ ap (λ b. (true, b))
            (append_assoc got (take j wanted) _ ∙ ap (◌++◌ got) (take-append-drop j wanted));
    read =
        d.read
        ∙ ap (λ z. z ++ drop j wanted) (rw (==-refl fd) refl)
        ∙ append_assoc (taken fd m.log) (take j wanted) (drop j wanted)
        ∙ ap (◌++◌ (taken fd m.log)) (take-append-drop j wanted);
    same = d.same;
    quiet = d.quiet;
  }

  pub read_loop-Fills :
      (f room n : ℕ) (got wanted rest : Bytes) (m : Machine Vars)
      → stream ≡ taken fd m.log ++ (wanted ++ rest)
      → length got + length wanted ≡ n
      → n ≤ room
      → length wanted < f
      → Returns (Fills fd got wanted m) (read_loop k f fd room n got m)
  unfolding read_loop taken sent
  read_loop-Fills zero room n got wanted rest m come size fits fuel = absurd (omega arith)
  read_loop-Fills (suc f) room n got [] rest m come size fits fuel =
      let done : ltb (length got) n ≡ false = ground arith in
      rw done (
        returns (record {
          result = ap (λ b. (true, b)) (sym (append-nil got));
          read = sym (append-nil _);
          same = refl;
          quiet = λ g. refl;
        }))
  read_loop-Fills (suc f) room n got (w ∷ ws) rest m come size fits fuel =
      let wanted = w ∷ ws in
      let more : ltb (length got) n ≡ true = ground arith in
      let (j, e, some_byte, within) =
        next_read (n - length got) wanted rest m come (omega arith) (omega arith) in
      let inside : ltb room (length (got ++ take j wanted)) ≡ false =
        ground (arith, length-append got (take j wanted), length-take j wanted) in
      rw (more, e, inside)
        (mono
          (read_loop-Fills f room n (got ++ take j wanted) (drop j wanted) rest _
            (rw (==-refl fd) (
              come
              ∙ ap (◌++◌ (taken fd m.log)) (
                  ap (λ z. z ++ rest) (sym (take-append-drop j wanted))
                  ∙ append_assoc (take j wanted) _ rest)
              ∙ sym (append_assoc (taken fd m.log) (take j wanted) (drop j wanted ++ rest))))
            (omega (
              arith,
              length-append got (take j wanted),
              length-take j wanted,
              length-drop j wanted,
            ))
            fits (omega (arith, length-drop j wanted)))
          λ r o d. join_read got wanted j m r o d)
