-- ===== src/Cy/Tests.antt =====
-- The event loop of server/cy/main.cpp at a concrete input.
use over.Base.{some, [], ◌∷◌}
use over.Kernel.{Kernel}
use over.Kernel.Stub.{stub}
use over.Run.{Machine}
use over.Server.State.{Vars}
use over.Server.Boot.{init_users, init_bufs}
use over.Server.Serve
use over.Cy.Main.{event_loop}
use over.Cy.Follows.{Follows, event_loop-Follows}

-- In each round the tun device, 4, and client 2 have something to read: a heartbeat.
abbrev busy : Kernel
busy = record (stub (5 ∷ 0 ∷ 0 ∷ 0 ∷ 104 ∷ []) []) { epoll_wait = λ l. some (4 ∷ 2 ∷ []) }

abbrev started : Machine Vars
started = record {
  vars = record {
    users = init_users;
    bufs = init_bufs;
    server_fd = some 3;
    tun_fd = some 4;
    epoll_fd = some 5;
  };
  log = [];
}

event_loop-Follows_example :
    Follows (Serve.event_loop busy 2 5 3 4 started) (event_loop busy 2 5 3 4 started)
event_loop-Follows_example = event_loop-Follows busy 2 5 3 4 started
