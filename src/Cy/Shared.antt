-- ===== src/Cy/Shared.antt =====
-- What server/cy/main.cpp has in common with the other two versions. Its process_client looks for the
-- end of the stream, as that of server/main.cpp does, and its process_tun is the first version's.
use over.Base.{ℕ, Bool, Option, List}
use over.Kernel.{Fd, Bytes, Kernel}
use over.Server.State.{Command}
use over.Server.Client
use over.First.Shared as First
use over.First.Checksum
use over.First.Handlers
use over.First.Main

abbrev pub UserInfo : Type 0
UserInfo = First.UserInfo

abbrev pub search_user_info_by_fd : Fd → List UserInfo → Option ℕ
search_user_info_by_fd = First.search_user_info_by_fd

abbrev pub search_user_info_by_addr : ℕ → List UserInfo → Option ℕ
search_user_info_by_addr = First.search_user_info_by_addr

abbrev pub in_cksum : Bytes → ℕ
in_cksum = Checksum.in_cksum

module _ (k : Kernel) where
  abbrev pub server_init : Command (Option Fd)
  server_init = First.server_init k

  abbrev pub tun_init : Command (Option Fd)
  tun_init = Main.tun_init k

  abbrev pub epoll_add_fd : Fd → Command Bool
  epoll_add_fd = First.epoll_add_fd k

  abbrev pub epoll_remove_fd : Fd → Command Bool
  epoll_remove_fd = First.epoll_remove_fd k

  abbrev pub allocate_ip_addr : Fd → Command (Option ℕ)
  allocate_ip_addr = First.allocate_ip_addr k

  abbrev pub deallocate_ip_addr : Fd → Command (Option ℕ)
  deallocate_ip_addr = First.deallocate_ip_addr k

  abbrev pub free_client_fd : Fd → Command (Unit {0})
  free_client_fd = First.free_client_fd k

  abbrev pub write_all : Fd → Bytes → Command (Option ℕ)
  write_all = First.write_all k

  abbrev pub process_server : Command (Unit {0})
  process_server = First.process_server k

  abbrev pub process_tun : ℕ → Fd → Command (Unit {0})
  process_tun = Handlers.process_tun k

  abbrev pub process_client : ℕ → Fd → Fd → Command (Unit {0})
  process_client = Client.process_client k

  abbrev pub process_heartbeat : Command (Unit {0})
  process_heartbeat = First.process_hartbeat k

  -- Behind the label `clean`.
  abbrev pub clean : Option Fd → Option Fd → Command (Unit {0})
  clean = Main.clean k

  -- From epoll_create to the loop.
  abbrev pub set_up : Fd → Fd → Command Bool
  set_up = Main.set_up k
