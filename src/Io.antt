-- ===== src/Io.antt =====
-- The system calls as commands: each asks the kernel, and records the call and its answer.
-- `write_all` is server/main.cpp's.
pub mod Delivery
pub mod Steady
use over.Base.{
  ℕ, zero, suc, ◌+◌, Bool, Option, none, some, List, ◌∷◌, ltb, match_option, if◌then◌else◌, length,
  drop,
}
use over.Kernel.{
  Fd, Bytes, Event, Kernel, reads, writes, closes, epoll_adds, epoll_dels, epoll_waits,
  epoll_creates, accepts, peers, times, sockets, reuses, binds, listens, connects, tun_opens,
  tun_names, shells, polls,
}
use over.Run.{Machine, Cmd, ok, spent, pure, ◌>>=◌}

module _ {S A : Type 0} where
  abbrev pub ask : Event → A → Cmd S A
  ask e a m = ok a (record m { log = e ∷ m.log })

module _ (k : Kernel) {S : Type 0} where
  abbrev pub read : Fd → ℕ → Cmd S (Option Bytes)
  read fd count m = let a = k.read m.log fd count in ask (reads fd a) a m

  abbrev pub write : Fd → Bytes → Cmd S (Option ℕ)
  write fd bytes m = let a = k.write m.log fd bytes in ask (writes fd bytes a) a m

  abbrev pub close : Fd → Cmd S (Unit {0})
  close fd = ask (closes fd) tt

  abbrev pub time : Cmd S ℕ
  time m = let a = k.time m.log in ask (times a) a m

  -- The loop of write_all, on fuel; `none` is its negative result.
  unfoldable pub write_loop : ℕ → Fd → Bytes → ℕ → Cmd S (Option ℕ)
  write_loop zero fd buf offset = λ m. spent
  write_loop (suc f) fd buf offset =
      if ltb offset (length buf)
      then (write fd (drop offset buf) >>= λ r.
          match_option r (pure none) (λ ret. write_loop f fd buf (offset + ret)))
      else pure (some offset)

  unfoldable pub write_all : Fd → Bytes → Cmd S (Option ℕ)
  unfolding write_loop
  write_all fd buf = write_loop (suc (length buf)) fd buf 0
