-- ===== src/Cy/Follows.antt =====
-- The event loop of server/cy/main.cpp beside that of server/main.cpp.
use over.Base.{
  ℕ, zero, suc, ◌-◌, ◌≡◌, ◌⊎◌, inl, inr, refl, Option, none, some, List, [], ◌∷◌, ◌++◌, ◌==◌, arith,
  ltb, length, drop, get_elem?, match_option, Bool-cases, Option-cases,
}
use over.Kernel.{Fd, Kernel}
use over.Run.{Machine, Out, Cmd, ok, fault, spent, and_then}
use over.Wire.{u32_at}
use over.Server.State.{Vars, buf_at, set_buf, user_at, buf_size}
use over.Server.Pool.{search_by_addr}
use over.Server.Tun
use over.Server.Tun.{ip_header_size, daddr_offset, forward}
use over.Server.Tun.Unknown.{tun_loop_unknown}
use over.Server.Serve
use over.Server.Beat.{process_heartbeat}
use over.First.Handlers.{deliver, tun_loop, process_tun}
use over.Cy.Main.{handle_event, handle_events, event_loop}

-- The one run spends its fuel, or the other is the same.
unfoldable pub Follows : {S A : Type 0} → Out S A → Out S A → Type 0
Follows o o' = (o ≡ spent) ⊎ (o' ≡ o)

module _ {S A : Type 0} where
  Follows-bind :
      {B : Type 0} (o o' : Out S A) (next next' : A → Cmd S B)
      → Follows o o'
      → ((a : A) (m : Machine S) → Follows (next a m) (next' a m))
      → Follows (and_then o next) (and_then o' next')
  unfolding Follows
  Follows-bind o o' next next' f g = elim f [ inl e ↦ inl (rw e refl) | inr e ↦ rw e (same o) ]
    where
      same : (p : Out S A) → Follows (and_then p next) (and_then p next')
      same (ok a m) = g a m
      same fault = inr refl
      same spent = inl refl

  Follows-refl : (o : Out S A) → Follows o o
  unfolding Follows
  Follows-refl o = inr refl

  Follows-option :
      {X : Type 0} (o : Option X) (c : Cmd S A) (d d' : X → Cmd S A) (m : Machine S)
      → ((x : X) → o ≡ some x → Follows (d x m) (d' x m))
      → Follows (match_option o c d m) (match_option o c d' m)
  Follows-option none c d d' m f = Follows-refl (c m)
  Follows-option (some x) c d d' m f = f x refl

module _ (k : Kernel) where
  tun_loop-Follows :
      (f : ℕ) (t : Fd) (m : Machine Vars) → Follows (Tun.tun_loop k f t m) (tun_loop k f t m)
  unfolding Tun.tun_loop tun_loop Follows buf_at deliver user_at set_buf
  tun_loop-Follows zero t m = inl refl
  tun_loop-Follows (suc f) t m = elim (Option-cases (get_elem? m.vars.bufs t)) [
    | inl out ↦ rw out (inr refl)
    | inr (buf, at) ↦ elim (Bool-cases (ltb (length buf) ip_header_size)) [
      | inl short ↦ rw (at, short) (inr refl)
      | inr long ↦ elim (Option-cases (search_by_addr (u32_at buf daddr_offset) m.vars.users)) [
        | inl lost ↦ inl (rw (at, long, lost) (tun_loop_unknown k t buf (ground arith) f m at lost))
        | inr (id, held) ↦ elim (Option-cases (get_elem? m.vars.users id)) [
          | inl out ↦ rw (at, long, held, out) (inr refl)
          | inr (u, e) ↦
              rw (at, long, held, e)
                (Follows-bind (forward k u.fd buf m) (forward k u.fd buf m) _ _ (Follows-refl _)
                  λ r n. Follows-option r _ _ _ n λ w went.
                    Follows-bind (set_buf t (drop (length buf) buf) n) _ _ _ (Follows-refl _)
                      λ _ p. tun_loop-Follows f t p)
        ]
      ]
    ]
  ]

  process_tun-Follows :
      (f : ℕ) (t : Fd) (m : Machine Vars) → Follows (Tun.process_tun k f t m) (process_tun k f t m)
  unfolding Tun.process_tun process_tun
  process_tun-Follows f t m = Follows-bind (buf_at t m) _ _ _ (Follows-refl _) λ buf n.
      Follows-option (k.read n.log t (buf_size - length buf)) _ _ _ _ λ bytes e.
        Follows-bind (set_buf t (buf ++ bytes) _) _ _ _ (Follows-refl _)
          λ _ p. tun_loop-Follows f t p

  handle_event-Follows :
      (fuel : ℕ) (server tun fd : Fd) (m : Machine Vars)
      → Follows (Serve.handle_event k fuel server tun fd m) (handle_event k fuel server tun fd m)
  unfolding Serve.handle_event handle_event
  handle_event-Follows fuel server tun fd m = elim (Bool-cases (fd == server)) [
    | inl listening ↦ rw listening (Follows-refl _)
    | inr other ↦ elim (Bool-cases (fd == tun)) [
      | inl device ↦ rw (other, device) (process_tun-Follows fuel tun m)
      | inr client ↦ rw (other, client) (Follows-refl _)
    ]
  ]

  handle_events-Follows :
      (fuel : ℕ) (server tun : Fd) (fds : List Fd) (m : Machine Vars)
      → Follows
          (Serve.handle_events k fuel server tun fds m)
          (handle_events k fuel server tun fds m)
  unfolding Serve.handle_events handle_events
  handle_events-Follows fuel server tun [] m = Follows-refl _
  handle_events-Follows fuel server tun (fd ∷ fds) m =
      Follows-bind _ _ _ _ (handle_event-Follows fuel server tun fd m)
        λ _ n. handle_events-Follows fuel server tun fds n

  -- For any number of rounds, any fuel for the loops of the handlers, any system and any
  -- machine, either the event loop of server/main.cpp spends its fuel, or the event loop of
  -- server/cy/main.cpp has the same outcome: the same result, variables and system calls, or a
  -- fault where the other has one.
  pub event_loop-Follows :
      (rounds fuel : ℕ) (server tun : Fd) (m : Machine Vars)
      → Follows
          (Serve.event_loop k rounds fuel server tun m)
          (event_loop k rounds fuel server tun m)
  unfolding Serve.event_loop event_loop
  event_loop-Follows zero fuel server tun m = Follows-refl _
  event_loop-Follows (suc rounds) fuel server tun m =
      Follows-option (k.epoll_wait m.log) _ _ _ _ λ fds e.
        Follows-bind _ _ _ _ (handle_events-Follows fuel server tun fds _) λ _ n.
          Follows-bind (process_heartbeat k n) _ _ _ (Follows-refl _)
            λ _ p. event_loop-Follows rounds fuel server tun p
