-- ===== src/Server/State.antt =====
-- The global variables of server/main.cpp, with the structures and constants of server_util.h and
-- the message types of 4o6.h. An `int` descriptor of -1 is `none`.
use over.Base.{
  ℕ, Bool, true, Option, none, some, List, length, get_elem?, set, ltb, match_option, if◌then◌else◌,
  modify,
}
use over.Kernel.{Fd, Bytes}
use over.Run.{Cmd, ok, fault, put_vars}

-- CLIENT_NUM, MAX_FDS, BUF_SIZE, HEARTBEAT_INTERVAL, HEARTBEAT_TIMEOUT
abbrev pub client_num : ℕ
client_num = 256

abbrev pub max_fds : ℕ
max_fds = 2048

abbrev pub buf_size : ℕ
buf_size = 65536

abbrev pub heartbeat_interval : ℕ
heartbeat_interval = 20

abbrev pub heartbeat_timeout : ℕ
heartbeat_timeout = 60

-- MSG_IP_REQ, MSG_IP_RSB, MSG_DATA_REQ, MSG_DATA_RSB, MSG_HEARTBEAT
abbrev pub ip_req : ℕ
ip_req = 100

abbrev pub ip_rsb : ℕ
ip_rsb = 101

abbrev pub data_req : ℕ
data_req = 102

abbrev pub data_rsb : ℕ
data_rsb = 103

abbrev pub heartbeat : ℕ
heartbeat = 104

-- User_Info_Table. `status` is 1 (`true`) while the address is free; `addr` has no terminator here,
-- and `v4addr` is the number in `s_addr`.
pub record User : Type 0 where
  pub addr : Bytes
  pub status : Bool
  pub fd : Option Fd
  pub last_sent : ℕ
  pub last_recved : ℕ
  pub v4addr : ℕ
  pub v6addr : Bytes

-- A `buffer_entry` is the list of the bytes in use: `used` is its length, and no byte behind is read.
pub record Vars : Type 0 where
  pub users : List User
  pub bufs : List Bytes
  pub server_fd : Option Fd
  pub tun_fd : Option Fd
  pub epoll_fd : Option Fd

abbrev pub Command : Type 0 → Type 0
Command = Cmd Vars

-- An access out of the bounds of the array is a fault.
unfoldable pub user_at : ℕ → Command User
user_at i m = match_option (get_elem? m.vars.users i) fault (λ u. ok u m)

unfoldable pub change_user : ℕ → (User → User) → Command (Unit {0})
change_user i f m = put_vars (record (m.vars) { users = modify f i m.vars.users }) m

unfoldable pub buf_at : Fd → Command Bytes
buf_at fd m = match_option (get_elem? m.vars.bufs fd) fault (λ b. ok b m)

unfoldable pub set_buf : Fd → Bytes → Command (Unit {0})
set_buf fd b m =
    if ltb fd (length m.vars.bufs)
    then put_vars (record (m.vars) { bufs = set m.vars.bufs fd b }) m
    else fault

-- `r < n` for the result of write_all.
abbrev pub short : Option ℕ → ℕ → Bool
short none n = true
short (some r) n = ltb r n
