-- ===== src/Server/Steady.antt =====
-- The invariant of the server's variables, and that every handler keeps it.
pub mod Tables
pub mod Handlers
pub mod Rounds
use over.Base.{ℕ, ◌≤◌, ◌≡◌, some, length, get_elem?}
use over.Kernel.{Fd, Bytes}
use over.Server.State.{Vars, max_fds, buf_size}
use over.Server.Table.{IsTable}

-- The table is well formed, there is a buffer for each descriptor below MAX_FDS, and none holds more
-- than BUF_SIZE bytes.
pub record IsState (v : Vars) : Type 0 where
  pub table : IsTable v.users
  pub slots : length v.bufs ≡ max_fds
  pub within : (fd : Fd) (b : Bytes) → get_elem? v.bufs fd ≡ some b → length b ≤ buf_size
