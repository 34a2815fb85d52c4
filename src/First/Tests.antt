-- ===== src/First/Tests.antt =====
-- The theorems about the first version at concrete inputs.
use over.Base.{false, ◌+◌, ◌*◌, ◌≡◌, refl, some, none, List, [], ◌∷◌, ◌++◌, arith, ◌/◌, ◌%◌, ◌<◌}
use over.Kernel.{Bytes}
use over.Kernel.Stub.{stub, stub-WritesWithin}
use over.Run.{Machine, Returns}
use over.Server.State.{Vars, User}
use over.First.Checksum.{in_cksum}
use over.First.Checksum.Verify.{in_cksum-verify}
use over.First.Handlers.{process_tun}
use over.First.Handlers.Fates.{Settles, process_tun-Settles}

-- The header of a UDP packet from 192.168.0.1 to 192.168.0.199, without its checksum.
abbrev front : Bytes
front = 69 ∷ 0 ∷ 0 ∷ 115 ∷ 0 ∷ 0 ∷ 64 ∷ 0 ∷ 64 ∷ 17 ∷ []

abbrev back : Bytes
back = 192 ∷ 168 ∷ 0 ∷ 1 ∷ 192 ∷ 168 ∷ 0 ∷ 199 ∷ []

in_cksum_value : in_cksum (front ++ 0 ∷ 0 ∷ back) ≡ 97 * 256 + 184
unfolding in_cksum
in_cksum_value = refl

in_cksum-verify_example :
    let c = in_cksum (front ++ 0 ∷ 0 ∷ back) in
    (c < 65536) × (in_cksum (front ++ c % 256 ∷ c / 256 ∷ back) ≡ 0)
in_cksum-verify_example =
    in_cksum-verify front back 5 refl (omega arith) (omega arith) (omega arith)

abbrev packet : Bytes
packet = front ++ 0 ∷ 0 ∷ back

-- Descriptor 3 is the listening socket, 4 the tun device and 2 a client.
abbrev machine : List User → Bytes → Machine Vars
machine users buf = record {
  vars = record {
    users = users;
    bufs = [] ∷ [] ∷ buf ∷ [] ∷ [] ∷ [];
    server_fd = none;
    tun_fd = none;
    epoll_fd = none;
  };
  log = [];
}

-- Client 2 holds the packet's destination.
abbrev receiver : User
receiver = record {
  addr = [];
  status = false;
  fd = some 2;
  last_sent = 0;
  last_recved = 0;
  v4addr = 192 + 256 * (168 + 256 * (0 + 256 * 199));
  v6addr = [];
}

process_tun-Settles_example :
    Returns
      (λ _. Settles 4 ([] ++ packet) (machine (receiver ∷ []) []))
      (process_tun (stub packet []) 2 4 (machine (receiver ∷ []) []))
process_tun-Settles_example =
    process_tun-Settles (stub packet []) (stub-WritesWithin packet []) 0 4
      (machine (receiver ∷ []) []) [] packet refl refl
