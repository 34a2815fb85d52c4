-- ===== src/Server/Steady/Rounds.antt =====
-- The event loop keeps the invariant, from the tables that MainThread makes on.
use over.Base.{
  ◌-◌, ℕ, zero, suc, ◌+◌, ◌≡◌, not, some, List, [], ◌∷◌, arith, ◌==◌, ltb, get_elem?, replicate,
  length-replicate,
}
use over.Kernel.{Fd, Bytes, Kernel, ReadsWithin}
use over.Run.{keeps, Keeps-bind, Keeps-if, Keeps-option, Steady}
use over.Server.State.{Vars, max_fds, heartbeat_interval, heartbeat_timeout, client_num}
use over.Server.Beat.{send_beat, check_user, beat_round, beat_loop, process_heartbeat}
use over.Server.Serve.{handle_event, handle_events, event_loop}
use over.Server.Boot.{init_users, init_bufs}
use over.Server.Table.Changes.{beat-IsEntry}
use over.Server.Table.Init.{init_users-IsTable}
use over.Server.Steady.{IsState}
use over.Server.Steady.Tables.{
  modify-IsState, user_at-Steady, write_all-Steady, free_client_fd-Steady,
}
use over.Server.Steady.Handlers.{process_tun-Steady, process_server-Steady, process_client-Steady}

module _ (k : Kernel) where
  send_beat-Steady : (i fd now : ℕ) → Steady IsState (send_beat k i fd now)
  unfolding send_beat
  send_beat-Steady i fd now m s =
      Keeps-bind (write_all-Steady k fd _ m s)
        λ r n t. keeps (modify-IsState _ i n.vars t λ u _ e. beat-IsEntry i now u e)

  check_user-Steady : (i fd : ℕ) → Steady IsState (check_user k i fd)
  unfolding check_user
  check_user-Steady i fd m s = Keeps-bind (user_at-Steady i _ s) λ u n t.
      Keeps-bind
        (Keeps-if (ltb heartbeat_interval (k.time m.log - u.last_sent)) _ _
          (λ _. send_beat-Steady i fd (k.time m.log) n t) (λ _. keeps t))
        λ _ o v. Keeps-bind (user_at-Steady i o v) λ w p x.
          Keeps-if (ltb heartbeat_timeout (k.time m.log - w.last_recved)) _ _
            (λ _. free_client_fd-Steady k fd p x) (λ _. keeps x)

  beat_round-Steady : (i : ℕ) → Steady IsState (beat_round k i)
  unfolding beat_round
  beat_round-Steady i m s = Keeps-bind (user_at-Steady i m s) λ u n t.
      Keeps-option u.fd _ _ (λ _. keeps t)
        λ fd _. Keeps-if (not u.status) _ _ (λ _. check_user-Steady i fd n t) (λ _. keeps t)

  beat_loop-Steady : (n i : ℕ) → Steady IsState (beat_loop k n i)
  unfolding beat_loop
  beat_loop-Steady zero i m s = keeps s
  beat_loop-Steady (suc n) i m s =
      Keeps-bind (beat_round-Steady i m s) λ _ o t. beat_loop-Steady n (i + 1) o t

  process_heartbeat-Steady : Steady IsState (process_heartbeat k)
  unfolding process_heartbeat
  process_heartbeat-Steady m s = beat_loop-Steady client_num 0 m s

  module _ (within : ReadsWithin k) (fuel server tun : ℕ) where
    handle_event-Steady : (fd : Fd) → Steady IsState (handle_event k fuel server tun fd)
    unfolding handle_event
    handle_event-Steady fd m s =
        Keeps-if (fd == server) _ _ (λ _. process_server-Steady k m s)
          λ _.
            Keeps-if (fd == tun) _ _ (λ _. process_tun-Steady k within fuel tun m s)
              λ _. process_client-Steady k within fuel fd tun m s

    handle_events-Steady : (fds : List Fd) → Steady IsState (handle_events k fuel server tun fds)
    unfolding handle_events
    handle_events-Steady [] m s = keeps s
    handle_events-Steady (fd ∷ fds) m s =
        Keeps-bind (handle_event-Steady fd m s) λ _ n t. handle_events-Steady fds n t

    -- If reads give no more than they were asked for, every run of the event loop, for any
    -- number of rounds, events and answers of the system, that starts from variables with the
    -- invariant (well-formed address table, MAX_FDS buffers, at most BUF_SIZE bytes in each)
    -- ends in variables with the invariant, unless it faults or a handler does not return.
    pub event_loop-Steady : (rounds : ℕ) → Steady IsState (event_loop k rounds fuel server tun)
    unfolding event_loop
    event_loop-Steady zero m s = keeps s
    event_loop-Steady (suc rounds) m s =
        Keeps-option (k.epoll_wait m.log) _ _ (λ _. keeps s)
          λ fds _.
            Keeps-bind (handle_events-Steady fds _ s) λ _ n t.
              Keeps-bind (process_heartbeat-Steady n t) λ _ o v. event_loop-Steady rounds o v

get_elem?-replicate : (n i : ℕ) (b c : Bytes) → get_elem? (replicate n b) i ≡ some c → c ≡ b
get_elem?-replicate zero i b c h = absurd (cc)
get_elem?-replicate (suc n) zero b c h = cc
get_elem?-replicate (suc n) (suc i) b c h = get_elem?-replicate n i b c h

-- Variables with the tables that MainThread fills have the invariant of the event loop: 256
-- entries with their own addresses, of which 0, 1 and 255 are kept back and the others are free,
-- and 2048 empty buffers.
pub init-IsState : (v : Vars) → IsState (record v { users = init_users; bufs = init_bufs })
unfolding init_bufs
init-IsState v = record {
  table = init_users-IsTable;
  slots = length-replicate {A = Bytes} max_fds [];
  within = λ fd b h. let e : b ≡ [] = get_elem?-replicate max_fds fd [] b h in rw e (omega arith);
}
