-- ===== src/Droid/Upload/Turns.antt =====
-- Readiness of the tun device and of the client in any order.
use over.Base.{
  ℕ, zero, suc, ◌+◌, ◌-◌, ◌<◌, ◌≤◌, ◌≡◌, ◌≢◌, refl, sym, ap, ◌∙◌, true, false, Option, List, [],
  ◌∷◌, ◌++◌, arith, ltb, ◌==◌, length, drop, inl, inr, Bool-cases, ltb→lt, Option-cases,
  append_assoc, append-nil, length-append, take-append-le, ==-refl,
}
use over.Kernel.{Fd, Bytes, Kernel, sent, taken}
use over.Run.{Machine, Returns, returns, bind, mono, pure, ◌>>◌}
use over.Droid.State.{Vars, Command, packet_max_size, pipe_buf_len, set_ip}
use over.Droid.Stream.{read_to_buf}
use over.Droid.Main.{handle_input, handle_output}
use over.Droid.Upload.{Flowing, Framed, joined, raw_to_over6-Framed}

-- Which descriptor epoll reports next: the tun device as readable, or the client as writable.
pub data Turn : Type 0 where
  tun_ready client_ready : Turn

unfoldable pub run_turns : Kernel → ℕ → Fd → Fd → List Turn → Command (Unit {0})
run_turns k fuel fd tun [] = pure tt
run_turns k fuel fd tun (tun_ready ∷ turns) =
    handle_input k fuel tun >> run_turns k fuel fd tun turns
run_turns k fuel fd tun (client_ready ∷ turns) =
    handle_output k fuel fd >> run_turns k fuel fd tun turns

-- The buffer has grown by what was read, and nothing else was done.
record Takes (fd : Fd) (buffer : Bytes) (m : Machine Vars) (r : Option ℕ × Bytes) (n : Machine Vars)
    : Type 0 where
  new : Bytes
  grown : r.1 ≡ buffer ++ new
  read : taken fd n.log ≡ taken fd m.log ++ new
  same : n.vars ≡ m.vars
  silent : (f : Fd) → sent f n.log ≡ sent f m.log

drop-append-le : (n : ℕ) (xs ys : Bytes) → n ≤ length xs → drop n (xs ++ ys) ≡ drop n xs ++ ys
drop-append-le zero xs ys h = refl
drop-append-le (suc n) [] ys h = absurd (omega arith)
drop-append-le (suc n) (x ∷ xs) ys h = drop-append-le n xs ys (omega arith)

nil_of_none : (bytes : Bytes) → (length bytes == 0) ≡ true → bytes ≡ []
nil_of_none [] h = refl
nil_of_none (b ∷ bs) h = absurd (ground arith)

module _ (k : Kernel) where
  -- Each read gives a byte at least, so the limit is reached.
  read_to_buf-Takes :
      (f : ℕ) (fd : Fd) (buffer : Bytes) (total : ℕ) (m : Machine Vars)
      → pipe_buf_len - packet_max_size < f + length buffer
      → 0 < f
      → Returns (Takes fd buffer m) (read_to_buf k f fd buffer total m)
  unfolding read_to_buf sent taken
  read_to_buf-Takes zero fd buffer total m fuel some_fuel = absurd (omega arith)
  read_to_buf-Takes (suc f) fd buffer total m fuel some_fuel =
      elim (Bool-cases (ltb (length buffer) (pipe_buf_len - packet_max_size))) [
        | inr full ↦ rw full (
            returns (record {
              new = [];
              grown = sym (append-nil _);
              read = sym (append-nil _);
              same = refl;
              silent = λ g. refl;
            }))
        | inl room ↦ rw room (elim (Option-cases (k.read m.log fd packet_max_size)) [
          | inl failed ↦ rw failed (
              returns (record {
                new = [];
                grown = sym (append-nil _);
                read = sym (append-nil _);
                same = refl;
                silent = λ g. refl;
              }))
          | inr (bytes, got) ↦ rw got (elim (Bool-cases (length bytes == 0)) [
            | inl ended ↦ rw ended (
                let e = nil_of_none bytes ended in
                returns (record {
                  new = [];
                  grown = sym (append-nil _);
                  read = rw (==-refl fd, e) refl;
                  same = refl;
                  silent = λ g. refl;
                }))
            | inr more ↦
                let some_byte : 0 < length bytes = ground arith in
                rw more (
                  mono
                    (read_to_buf-Takes f fd (buffer ++ bytes) (total + length bytes) _
                      (omega (arith, length-append buffer bytes)) (omega (arith, ltb→lt _ _ room)))
                    λ r n d. record {
                      new = bytes ++ d.new;
                      grown = d.grown ∙ append_assoc buffer bytes d.new;
                      read =
                          d.read
                          ∙ ap (λ z. z ++ d.new) (rw (==-refl fd) refl)
                          ∙ append_assoc (taken fd m.log) bytes d.new;
                      same = d.same;
                      silent = d.silent;
                    })
          ])
        ])
      ]

module _ (k : Kernel) (fd tun : Fd) (other : fd ≢ tun) (flowing : Flowing k fd) (fuel : ℕ)
    (enough : pipe_buf_len - packet_max_size < fuel) (before base : Bytes) where
  input-Framed :
      (m : Machine Vars)
      → Framed fd tun before base m
      → Returns (λ _ n. Framed fd tun before base n) (handle_input k fuel tun m)
  unfolding handle_input set_ip
  input-Framed m h =
      let own : (tun == m.vars.tun_dev_fd) ≡ true = ap (λ z. tun == z) h.device ∙ ==-refl tun in
      rw own (
        bind (read_to_buf-Takes k fuel tun m.vars.ip_buffer 0 m (omega arith) (omega arith))
          λ r n d. returns (record {
            client = ap (λ v. v.over6_fd) d.same ∙ h.client;
            device = ap (λ v. v.tun_dev_fd) d.same ∙ h.device;
            bodies = h.bodies;
            stream =
                rw (d.grown, d.silent fd)
                  (ap (◌++◌ (sent fd m.log))
                      (take-append-le m.vars.remain m.vars.ip_buffer d.new h.within)
                    ∙ h.stream);
            content =
                rw (d.grown, drop-append-le m.vars.remain m.vars.ip_buffer d.new h.within, d.read)
                  (ap (◌++◌ base) (
                      sym (
                        append_assoc (joined h.bodies) (drop m.vars.remain m.vars.ip_buffer) d.new))
                    ∙ sym (
                        append_assoc base (joined h.bodies ++ drop m.vars.remain m.vars.ip_buffer)
                          d.new)
                    ∙ ap (λ z. z ++ d.new) h.content);
            within = rw d.grown (omega (arith, length-append m.vars.ip_buffer d.new, h.within));
          }))

  output-Framed :
      (m : Machine Vars)
      → Framed fd tun before base m
      → Returns (λ _ n. Framed fd tun before base n) (handle_output k fuel fd m)
  unfolding handle_output
  output-Framed m h =
      let apart : (fd == m.vars.tun_dev_fd) ≡ false = ap (λ z. fd == z) h.device ∙ unequal in
      let own : (fd == m.vars.over6_fd) ≡ true = ap (λ z. fd == z) h.client ∙ ==-refl fd in
      rw (apart, own) (raw_to_over6-Framed k fd tun flowing before base m h)
    where
      unequal : (fd == tun) ≡ false
      unequal = ground arith

  turns-Framed :
      (turns : List Turn) (m : Machine Vars)
      → Framed fd tun before base m
      → Returns (λ _ n. Framed fd tun before base n) (run_turns k fuel fd tun turns m)
  unfolding run_turns
  turns-Framed [] m h = returns h
  turns-Framed (tun_ready ∷ turns) m h = bind (input-Framed m h) λ r n d. turns-Framed turns n d
  turns-Framed (client_ready ∷ turns) m h = bind (output-Framed m h) λ r n d. turns-Framed turns n d

-- When a write to the client takes a header whole and a byte at least of any block that is not
-- empty, and more than 6488064 rounds of readToBuf are allowed, then from an empty ipBuffer with
-- no remainder, whatever the order in which the tun device is readable and the client writable,
-- the handlers return: the client's stream with the remainder of the message that is being sent
-- is whole messages of type TYPE_REPLY, and their bodies, with the bytes in ipBuffer behind the
-- remainder, are exactly the bytes that were read from the tun device, in order.
pub run_turns-Framed :
    (k : Kernel) (fd tun : Fd) (fuel : ℕ) (turns : List Turn) (m : Machine Vars)
    → fd ≢ tun
    → Flowing k fd
    → pipe_buf_len - packet_max_size < fuel
    → m.vars.over6_fd ≡ fd
    → m.vars.tun_dev_fd ≡ tun
    → m.vars.ip_buffer ≡ []
    → m.vars.remain ≡ 0
    → Returns
        (λ _ n. Framed fd tun (sent fd m.log) (taken tun m.log) n)
        (run_turns k fuel fd tun turns m)
run_turns-Framed k fd tun fuel turns m other flowing enough client device empty fresh =
    turns-Framed k fd tun other flowing fuel enough (sent fd m.log) (taken tun m.log) turns m
      (record {
        client = client;
        device = device;
        bodies = [];
        stream = rw (empty, fresh) refl;
        content = rw (empty, fresh) (append-nil _);
        within = rw (empty, fresh) (omega arith);
      })
