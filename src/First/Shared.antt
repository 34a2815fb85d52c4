-- ===== src/First/Shared.antt =====
-- What the first version has in common with server/main.cpp, under its own names: `is_free` is
-- there `status`, MAX_CLIENTS is CLIENT_NUM, and `hartbeat` is heartbeat. The statements are the same.
use over.Base.{ℕ, Bool, Option, List}
use over.Kernel.{Fd, Bytes, Kernel}
use over.Io
use over.Server.State.{Command, User}
use over.Server.Pool
use over.Server.Client
use over.Server.Beat
use over.Server.Boot

-- user_info
abbrev pub UserInfo : Type 0
UserInfo = User

abbrev pub search_user_info_by_fd : Fd → List UserInfo → Option ℕ
search_user_info_by_fd = Pool.search_by_fd

abbrev pub search_user_info_by_addr : ℕ → List UserInfo → Option ℕ
search_user_info_by_addr = Pool.search_by_addr

module _ (k : Kernel) where
  abbrev pub server_init : Command (Option Fd)
  server_init = Boot.server_init k

  abbrev pub epoll_add_fd : Fd → Command Bool
  epoll_add_fd = Client.epoll_add_fd k

  abbrev pub epoll_remove_fd : Fd → Command Bool
  epoll_remove_fd = Pool.epoll_remove_fd k

  abbrev pub allocate_ip_addr : Fd → Command (Option ℕ)
  allocate_ip_addr = Pool.allocate_ip_addr k

  abbrev pub deallocate_ip_addr : Fd → Command (Option ℕ)
  deallocate_ip_addr = Pool.deallocate_ip_addr k

  abbrev pub free_client_fd : Fd → Command (Unit {0})
  free_client_fd = Pool.free_client_fd k

  abbrev pub write_all : Fd → Bytes → Command (Option ℕ)
  write_all = Io.write_all k

  abbrev pub process_server : Command (Unit {0})
  process_server = Client.process_server k

  abbrev pub process_hartbeat : Command (Unit {0})
  process_hartbeat = Beat.process_heartbeat k
