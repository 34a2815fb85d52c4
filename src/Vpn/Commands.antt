-- ===== src/Vpn/Commands.antt =====
-- The commands of the application.
use over.Base.{
  ℕ, zero, suc, ◌+◌, ◌-◌, ◌<◌, ◌≡◌, refl, sym, ap, ◌∙◌, inl, inr, ℤ, [], ◌∷◌, ◌++◌, arith, ltb,
  length, drop, append_assoc, append-nil, length-append, length-drop, ltb→le, ltb→lt, Bool-cases,
  ==-refl, signed32, match_int,
}
use over.Kernel.{Bytes, Kernel, Flows, taken}
use over.Run.{Machine, Returns, returns, mono}
use over.Wire.{u32_at}
use over.Vpn.State.{Vars, get_tun_fd, overwrite, set_tun}
use over.Vpn.Handlers.{go_on, failed, set_tun_loop, run_command}
use over.Vpn.Memory.{overwrite-front}

-- The bytes behind `got` are read into tunFd, and the result tells the sign of the number.
pub record Sets (got : Bytes) (n : ℕ) (m : Machine Vars) (r : ℤ) (e : Machine Vars) : Type 0 where
  pub new : Bytes
  pub size : length new ≡ n
  pub read : taken m.vars.command_fd e.log ≡ taken m.vars.command_fd m.log ++ new
  pub set : e.vars ≡ record (m.vars) { tun = got ++ new }
  pub sign : r ≡ match_int (signed32 (u32_at (got ++ new) 0)) (λ tun. go_on) (λ tun. failed)

nil_of_length : (bs : Bytes) → length bs ≡ 0 → bs ≡ []
nil_of_length [] h = refl
nil_of_length (b ∷ bs) h = absurd (omega arith)

module _ (k : Kernel) where
  set_tun_loop-Sets :
      (f n : ℕ) (got old : Bytes) (m : Machine Vars)
      → Flows k m.vars.command_fd
      → 4 - n < f
      → m.vars.tun ≡ got ++ old
      → length got ≡ n
      → n + length old ≡ 4
      → Returns (Sets got (4 - n) m) (set_tun_loop k f n m)
  unfolding set_tun_loop get_tun_fd taken
  set_tun_loop-Sets zero n got old m flows fuel at size four = absurd (omega arith)
  set_tun_loop-Sets (suc f) n got old m flows fuel at size four = elim (Bool-cases (ltb n 4)) [
    | inr done ↦
        let none_left : old ≡ [] = nil_of_length old (omega (arith, ltb→le n 4 done)) in
        let all : m.vars.tun ≡ got ++ [] = at ∙ ap (◌++◌ got) none_left in
        rw done (
          returns (record {
            new = [];
            size = omega (arith, ltb→le n 4 done);
            read = sym (append-nil _);
            set = ap (λ z. record (m.vars) { tun = z }) all;
            sign = ap (λ z. match_int (signed32 (u32_at z 0)) (λ tun. go_on) (λ tun. failed)) all;
          }))
    | inl more ↦
        let (bytes, e, some_byte, within) = flows m.log (4 - n) (omega (arith, ltb→lt n 4 more)) in
        rw (more, e)
          (mono
            (set_tun_loop-Sets f (n + length bytes) (got ++ bytes) (drop (length bytes) old) _ flows
              (omega arith)
              (ap (λ z. overwrite z n bytes) at
                ∙ ap (λ z. overwrite (got ++ old) z bytes) (sym size)
                ∙ overwrite-front got old bytes)
              (omega (arith, length-append got bytes))
              (omega (arith, length-drop (length bytes) old)))
            λ r o d. record {
              new = bytes ++ d.new;
              size = omega (arith, d.size, length-append bytes d.new);
              read =
                  d.read
                  ∙ ap (λ z. z ++ d.new) (rw (==-refl m.vars.command_fd) refl)
                  ∙ append_assoc (taken m.vars.command_fd m.log) bytes d.new;
              set = d.set ∙ ap (λ z. record (m.vars) { tun = z }) (append_assoc got bytes d.new);
              sign =
                  d.sign
                  ∙ ap (λ z. match_int (signed32 (u32_at z 0)) (λ tun. go_on) (λ tun. failed))
                      (append_assoc got bytes d.new);
            })
  ]

  -- When reads from the command descriptor give at least a byte each and no more than asked
  -- for, and tunFd has its four bytes, the SET_TUN command with five rounds or more returns:
  -- exactly four bytes have been taken from the command stream, in whatever pieces, they are
  -- tunFd, no other variable has changed, and the result tells the sign of the number.
  pub run_command-Sets :
      (f : ℕ) (m : Machine Vars)
      → Flows k m.vars.command_fd
      → length m.vars.tun ≡ 4
      → 4 < f
      → Returns (Sets [] 4 m) (run_command k f set_tun m)
  unfolding run_command
  run_command-Sets f m flows size fuel =
      set_tun_loop-Sets f 0 [] m.vars.tun m flows (omega arith) refl refl (omega arith)
