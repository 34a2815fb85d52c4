-- ===== src/Server/Beat.antt =====
-- process_heartbeat: after every round of events the server's heartbeats are sent, and clients that
-- have been silent too long are dropped.
pub mod Silence
pub mod Ends
use over.Base.{match_option, ℕ, zero, suc, ◌+◌, ◌-◌, not, ltb, if◌then◌else◌}
use over.Kernel.{Fd, Kernel}
use over.Run.{pure, ◌>>=◌, ◌>>◌}
use over.Io
use over.Io.{write_all}
use over.Wire.{header_bytes, header_size}
use over.Server.State.{
  Command, User, user_at, change_user, heartbeat, heartbeat_interval, heartbeat_timeout, client_num,
}
use over.Server.Pool.{free_client_fd}

-- `users[i].last_heartbeat_sent_secs = now`
unfoldable pub beat : ℕ → User → User
beat t u = record u { last_sent = t }

module _ (k : Kernel) where
  -- A heartbeat that cannot be sent is only reported.
  unfoldable pub send_beat : ℕ → Fd → ℕ → Command (Unit {0})
  unfolding change_user beat
  send_beat i fd now = do
    _ ← write_all k fd (header_bytes header_size heartbeat)
    change_user i (beat now)

  -- One round of the loop, for an entry that holds a descriptor and is not free.
  unfoldable pub check_user : ℕ → Fd → Command (Unit {0})
  unfolding send_beat user_at free_client_fd
  check_user i fd = do
    now ← Io.time k
    u ← user_at i
    (if ltb heartbeat_interval (now - u.last_sent) then send_beat i fd now else pure tt)
    v ← user_at i
    if ltb heartbeat_timeout (now - v.last_recved) then free_client_fd k fd else pure tt

  unfoldable pub beat_round : ℕ → Command (Unit {0})
  unfolding check_user user_at
  beat_round i = do
    u ← user_at i
    match_option u.fd (pure tt) λ fd. if not u.status then check_user i fd else pure tt

  -- The entries from `i` on, `n` of them.
  unfoldable pub beat_loop : ℕ → ℕ → Command (Unit {0})
  unfolding beat_round
  beat_loop zero i = pure tt
  beat_loop (suc n) i = do beat_round i; beat_loop n (i + 1)

  unfoldable pub process_heartbeat : Command (Unit {0})
  unfolding beat_loop
  process_heartbeat = beat_loop client_num 0
