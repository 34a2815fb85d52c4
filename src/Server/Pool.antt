-- ===== src/Server/Pool.antt =====
-- The table of addresses: search, allocation and release.
pub mod Owners
pub mod Leak
use over.Base.{
  match_option, ℕ, Bool, true, false, not, ◌&&◌, Option, none, some, List, ◌==◌, find_index,
  if◌then◌else◌,
}
use over.Kernel.{Fd, Bytes, Kernel, peers, epoll_dels}
use over.Run.{pure, get_vars, ◌>>=◌, ◌>>◌}
use over.Io
use over.Io.{ask, close}
use over.Text.{inet_pton}
use over.Server.State.{User, Command, change_user}

-- `x == fd` for an `int` that may be -1.
abbrev pub is_fd : Fd → Option Fd → Bool
is_fd fd none = false
is_fd fd (some x) = x == fd

abbrev pub holds_addr : ℕ → User → Bool
holds_addr addr u = (u.v4addr == addr) && not u.status

abbrev pub holds_fd : Fd → User → Bool
holds_fd fd u = is_fd fd u.fd && not u.status

-- search_user_info_by_addr
unfoldable pub search_by_addr : ℕ → List User → Option ℕ
unfolding find_index
search_by_addr addr = find_index (holds_addr addr)

-- search_user_info_by_fd
unfoldable pub search_by_fd : Fd → List User → Option ℕ
unfolding find_index
search_by_fd fd = find_index (holds_fd fd)

-- What inet_pton leaves in `v4addr`: on an error the old value.
abbrev pub or_old : Option ℕ → ℕ → ℕ
or_old none old = old
or_old (some a) old = a

-- The writes of allocate_ip_addr to one entry.
unfoldable pub grant : Fd → ℕ → ℕ → Bytes → User → User
grant fd sent recved peer u = record u {
  status = false;
  fd = some fd;
  last_sent = sent;
  last_recved = recved;
  v4addr = or_old (inet_pton u.addr) u.v4addr;
  v6addr = peer;
}

-- The writes of deallocate_ip_addr to one entry.
unfoldable pub vacate : User → User
vacate u = record u { status = true; fd = none }

module _ (k : Kernel) where
  unfoldable pub getpeername : Fd → Command Bytes
  getpeername fd m = let a = k.getpeername m.log fd in ask (peers fd a) a m

  unfoldable pub allocate_ip_addr : Fd → Command (Option ℕ)
  unfolding getpeername change_user find_index
  allocate_ip_addr client_fd = do
    s ← get_vars
    match_option (find_index (λ u. u.status) s.users) (pure none) λ i. do
      sent ← Io.time k
      recved ← Io.time k
      peer ← getpeername client_fd
      change_user i (grant client_fd sent recved peer)
      pure (some i)

  unfoldable pub deallocate_ip_addr : Fd → Command (Option ℕ)
  unfolding change_user find_index
  deallocate_ip_addr client_fd = do
    s ← get_vars
    match_option (find_index (holds_fd client_fd) s.users) (pure none)
        λ i. do change_user i vacate; pure (some i)

  unfoldable pub epoll_remove_fd : Fd → Command Bool
  epoll_remove_fd fd m = let a = k.epoll_del m.log fd in ask (epoll_dels fd a) a m

  unfoldable pub free_client_fd : Fd → Command (Unit {0})
  unfolding epoll_remove_fd deallocate_ip_addr
  free_client_fd client_fd = do
    removed ← epoll_remove_fd client_fd
    if removed then (do _ ← deallocate_ip_addr client_fd; close k client_fd) else pure tt
