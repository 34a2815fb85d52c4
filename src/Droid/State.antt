-- ===== src/Droid/State.antt =====
-- The variables and constants of DroidOver6Server.c.
use over.Base.{ℕ, [], ◌∷◌, ◌++◌}
use over.Kernel.{Fd, Bytes}
use over.Run.{Cmd, get_vars, put_vars, ◌>>=◌}
use over.Text.{codes}

-- IP_PACKET_MAX_SIZE and PIPE_BUF_LEN
abbrev pub packet_max_size : ℕ
packet_max_size = 65536

abbrev pub pipe_buf_len : ℕ
pipe_buf_len = 6553600

-- TYPE_IP_REQUEST, TYPE_IP_REPLY, TYPE_REQUEST, TYPE_REPLY, TYPE_HEART
abbrev pub type_ip_request : ℕ
type_ip_request = 100

abbrev pub type_ip_reply : ℕ
type_ip_reply = 101

abbrev pub type_request : ℕ
type_request = 102

abbrev pub type_reply : ℕ
type_reply = 103

abbrev pub type_heart : ℕ
type_heart = 104

-- over6PacketBuffer and ipBuffer are the bytes in use, the number of which is
-- over6PacketBufferUsed and ipBufferUsed. `remain` is ipBufferRemain. server_fd is
-- used in main alone.
pub record Vars : Type 0 where
  pub over6_packet_buffer : Bytes
  pub ip_buffer : Bytes
  pub remain : ℕ
  pub over6_fd : Fd
  pub tun_dev_fd : Fd
  pub last_heartbeat : ℕ

abbrev pub Command : Type 0 → Type 0
Command = Cmd Vars

-- The array `reply`, its terminator included.
unfoldable pub reply_bytes : Bytes
reply_bytes = codes "10.10.10.2 255.255.255.0 166.111.8.28 166.111.8.29 8.8.8.8" ++ 0 ∷ []

unfoldable pub set_packets : Bytes → Command (Unit {0})
set_packets b = get_vars >>= λ s. put_vars (record s { over6_packet_buffer = b })

unfoldable pub set_ip : Bytes → ℕ → Command (Unit {0})
set_ip b n = get_vars >>= λ s. put_vars (record s { ip_buffer = b; remain = n })
