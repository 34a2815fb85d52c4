-- ===== src/Tunnel/Tests.antt =====
-- The theorems about the two programs together at concrete inputs.
use over.Base.{refl, none, some, List, [], ◌∷◌, ◌++◌, take, drop, arith}
use over.Kernel.{Bytes}
use over.Kernel.Stub.{stub, stub-WritesWithin}
use over.Wire.{header_bytes, frame}
use over.Kernel.{sent}
use over.Run.{Machine, Returns, machine_of}
use over.Server.State as Server
use over.Server.Client.{process_client}
use over.Server.Client.Framing.{frames, no_header}
use over.Vpn.Stub.{running}
use over.Vpn.Handlers.{send_packet}
use over.Vpn.Sends.{joined}
use over.Wire.{u32_at}
use over.Io.{write_all}
use over.Server.State.{data_rsb}
use over.Server.Tun.{process_tun}
use over.Server.Table.Sample.{first_users, first_user, first_users-IsTable, packet}
use over.Vpn.State.{get_tun_fd, take_padded}
use over.Vpn.Socket.{handle_socket}
use over.Vpn.Receiving.{Writes}
use over.Tunnel.Down.{download}
use over.Tunnel.Up.{messages, send_packets, Carried, upload}

abbrev packets : List Bytes
packets = (69 ∷ 0 ∷ []) ∷ (69 ∷ 1 ∷ 2 ∷ []) ∷ []

-- The server's descriptor 2 is the client, and 4 the tun device.
abbrev server : Machine Server.Vars
server = record {
  vars = record {
    users = [];
    bufs = [] ∷ [] ∷ take 3 (frames (messages packets)) ∷ [];
    server_fd = none;
    tun_fd = some 4;
    epoll_fd = none;
  };
  log = [];
}

-- What a read of the client gives: the rest of the messages, and a byte of another.
abbrev arriving : Bytes
arriving = drop 3 (frames (messages packets)) ++ 7 ∷ []

upload_example :
    Returns
      (λ _ n. Carried 2 4 (7 ∷ []) (joined packets) server n)
      (process_client (stub arriving []) 5 2 4 server)
unfolding send_packets send_packet header_bytes sent frame
upload_example =
    upload (stub arriving []) (stub-WritesWithin arriving []) 2 4 (7 ∷ []) (stub [] []) packets
      (running []) (machine_of (send_packets (stub [] []) packets (running [])) (running [])) server
      (frames (messages packets)) (take 3 (frames (messages packets))) arriving 5 refl refl refl
      refl (λ e. cc) refl (no_header (omega arith)) (omega arith, (omega arith, tt)) (omega arith)

-- The server with client 2's entry, before and after the packet.
abbrev before : Machine Server.Vars
before = record {
  vars = record {
    users = first_users;
    bufs = [] ∷ [] ∷ [] ∷ [] ∷ [] ∷ [];
    server_fd = some 3;
    tun_fd = some 4;
    epoll_fd = some 5;
  };
  log = [];
}

abbrev tunnelled : Machine Server.Vars
tunnelled = machine_of (process_tun (stub packet []) 2 4 before) before

download_example :
    Returns
      (Writes 8 (packet ++ (7 ∷ 0 ∷ 0 ∷ 0 ∷ 0 ∷ [])) (7 ∷ []) (running []))
      (handle_socket (stub (frame data_rsb packet ++ 7 ∷ []) []) 2 (running []))
unfolding first_users first_user u32_at sent get_tun_fd process_tun write_all header_bytes frame
    take_padded
download_example =
    download (stub packet []) (stub-WritesWithin packet []) 4 2 2 0 packet (frame data_rsb packet)
      first_user before tunnelled first_users-IsTable refl refl refl refl refl refl (omega arith)
      refl refl refl refl (stub (frame data_rsb packet ++ 7 ∷ []) []) 8 2 (running []) [] []
      (frame data_rsb packet ++ 7 ∷ []) (7 ∷ []) (λ l bytes. refl) refl refl refl refl refl
      (omega arith) (no_header (omega arith)) (omega arith)
