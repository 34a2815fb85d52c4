-- ===== src/Vpn/Stub.antt =====
-- A client for concrete runs.
use over.Base.{[], ◌∷◌, length}
use over.Kernel.{Bytes}
use over.Run.{Machine}
use over.Vpn.State.{Vars}

-- The socket is 3, the commands come from 4 and the answers go to 5; the tun device is 8.
abbrev pub running : Bytes → Machine Vars
running memory = record {
  vars = record {
    memory = memory;
    nreads = length memory;
    socket_fd = 3;
    command_fd = 4;
    response_fd = 5;
    tun = 8 ∷ 0 ∷ 0 ∷ 0 ∷ [];
    last_from_server = 50;
    last_to_server = 70;
    in_bytes = 0;
    out_bytes = 0;
    in_packets = 0;
    out_packets = 0;
  };
  log = [];
}
