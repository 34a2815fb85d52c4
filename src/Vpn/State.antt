-- ===== src/Vpn/State.antt =====
-- The static variables of jni/proto.cpp, and the constants of proto.h and proto.cpp.
use over.Base.{
  ℕ, zero, suc, ◌+◌, ◌%◌, ◌/◌, ◌^◌, ℤ, signed32, Bool, Option, none, some, [], ◌∷◌, ◌++◌, ◌==◌,
  length, drop,
}
use over.Kernel.{Fd, Bytes}
use over.Run.{Cmd}
use over.Wire.{u32_at, u32_bytes}

-- HEARTBEAT_TIMEOUT_SECS, HEARTBEAT_INTERVAL_SECS, BUFFER_SIZE
abbrev pub timeout_secs : ℕ
timeout_secs = 60

abbrev pub interval_secs : ℕ
interval_secs = 20

abbrev pub buffer_size : ℕ
buffer_size = 4194304

-- PROTOCOL_IP_REQUEST, PROTOCOL_IP_REPLY, PROTOCOL_PACKET_SEND, PROTOCOL_PACKET_RECV,
-- PROTOCOL_HEARTBEAT
abbrev pub ip_request_type : ℕ
ip_request_type = 100

abbrev pub ip_reply_type : ℕ
ip_reply_type = 101

abbrev pub packet_send_type : ℕ
packet_send_type = 102

abbrev pub packet_recv_type : ℕ
packet_recv_type = 103

abbrev pub heartbeat_type : ℕ
heartbeat_type = 104

-- IPC_COMMAND_EXIT, IPC_COMMAND_FETCH_CONFIG, IPC_COMMAND_SET_TUN, IPC_COMMAND_FETCH_STATE
abbrev pub exit_command : ℕ
exit_command = 1

abbrev pub fetch_config : ℕ
fetch_config = 2

abbrev pub set_tun : ℕ
set_tun = 3

abbrev pub fetch_state : ℕ
fetch_state = 4

-- `memory` is socket_buffer up to the last byte that was ever written, with zeros behind; `nreads`
-- of its bytes are in use, and what follows them is left from earlier messages. `tun` is the four
-- bytes of tunFd.
pub record Vars : Type 0 where
  pub memory : Bytes
  pub nreads : ℕ
  pub socket_fd : Fd
  pub command_fd : Fd
  pub response_fd : Fd
  pub tun : Bytes
  pub last_from_server : ℕ
  pub last_to_server : ℕ
  pub in_bytes : ℕ
  pub out_bytes : ℕ
  pub in_packets : ℕ
  pub out_packets : ℕ

abbrev pub Command : Type 0 → Type 0
Command = Cmd Vars

-- get_tun_fd
unfoldable pub get_tun_fd : Vars → ℤ
unfolding u32_at signed32
get_tun_fd s = signed32 (u32_at s.tun 0)

-- The bytes of `tunFd = -1`.
abbrev pub no_tun : Bytes
no_tun = 255 ∷ 255 ∷ 255 ∷ 255 ∷ []

-- `counter += n` on uint64_t
abbrev pub add64 : ℕ → ℕ → ℕ
add64 a b = (a + b) % 2 ^ 64

unfoldable pub u64_bytes : ℕ → Bytes
unfolding u32_bytes
u64_bytes n = u32_bytes (n % 2 ^ 32) ++ u32_bytes (n / 2 ^ 32 % 2 ^ 32)

-- The first `n` bytes of a zeroed array that begins with these.
unfoldable pub take_padded : ℕ → Bytes → Bytes
take_padded zero bs = []
take_padded (suc n) [] = 0 ∷ take_padded n []
take_padded (suc n) (b ∷ bs) = b ∷ take_padded n bs

unfoldable pub slice : Bytes → ℕ → ℕ → Bytes
unfolding take_padded
slice mem offset n = take_padded n (drop offset mem)

-- The array after a write of the bytes at an offset.
unfoldable pub overwrite : Bytes → ℕ → Bytes → Bytes
unfolding take_padded
overwrite mem offset bytes = take_padded offset mem ++ (bytes ++ drop (offset + length bytes) mem)

-- `write(...) == n`
abbrev pub wrote : Option ℕ → ℕ → Bool
wrote none n = Bool.false
wrote (some r) n = r == n
