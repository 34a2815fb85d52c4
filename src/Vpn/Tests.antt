-- ===== src/Vpn/Tests.antt =====
-- The theorems about the client at concrete inputs.
use over.Base.{◌≡◌, refl, Bool, some, [], ◌∷◌, ◌++◌, arith}
use over.Kernel.{cut_short, Bytes, reads}
use over.Kernel.Stub.{stub}
use over.Run.{Returns, Keeps, spent}
use over.Wire.{frame, header_bytes, u32_bytes, read_header, header_length}
use over.Server.State.{User}
use over.Server.Boot.{slot_addr}
use over.Server.Client.{reply_text}
use over.Vpn.State.{packet_recv_type, set_tun}
use over.Vpn.Stub.{running}
use over.Vpn.Socket.{ip_reply, socket_loop, handle_socket}
use over.Vpn.Handlers.{handle_heartbeat, run_command}
use over.Server.Client.Framing.{no_header}
use over.Vpn.Framing.{handle_messages, handle_socket-frames}
use over.Vpn.Commands.{Sets, run_command-Sets}
use over.Vpn.Main.{vpn_loop}
use over.Io.Delivery.{Sends}
use over.Vpn.Sends.{joined}
use over.Vpn.Reply.{config, ip_reply-config, ip_reply_unterminated}
use over.Vpn.Outgoing.{Beating, handle_heartbeat-Beating}
use over.Vpn.Incoming.{socket_loop_zero_length}
use over.Vpn.Bounds.{IsBounded}
use over.Vpn.Bounds.Rounds.{vpn_loop-Steady}

abbrev holder : User
holder = record {
  addr = slot_addr 7;
  status = Bool.false;
  fd = some 9;
  last_sent = 0;
  last_recved = 0;
  v4addr = 0;
  v6addr = [];
}

ip_reply-config_example :
    Returns
      (Sends cut_short 5 (joined (config 7 8 ++ u32_bytes 3 ∷ [])) (running []))
      (ip_reply (stub [] (0 ∷ 66 ∷ [])) (reply_text holder) (running []))
ip_reply-config_example =
    ip_reply-config (stub [] (0 ∷ 66 ∷ [])) 7 (66 ∷ []) holder (running []) (omega arith) refl refl

ip_reply_unterminated_example :
    Returns
      (Sends cut_short 5 (joined (config 7 83 ++ u32_bytes 3 ∷ [])) (running []))
      (ip_reply (stub [] (51 ∷ 0 ∷ [])) (reply_text holder) (running []))
ip_reply_unterminated_example =
    ip_reply_unterminated (stub [] (51 ∷ 0 ∷ [])) 7 3 [] holder (running []) (omega arith)
      (omega arith) refl refl

handle_heartbeat-Beating_example :
    Returns (Beating 100 (running [])) (handle_heartbeat (stub [] []) (running []))
handle_heartbeat-Beating_example = handle_heartbeat-Beating (stub [] []) (running [])

socket_loop_zero_length_example : socket_loop (stub [] []) 50 (running (header_bytes 0 104)) ≡ spent
unfolding header_bytes read_header header_length
socket_loop_zero_length_example =
    socket_loop_zero_length (stub [] []) (header_bytes 0 104) 50 (running (header_bytes 0 104)) refl
      (omega arith) (omega arith) refl refl

vpn_loop-Steady_example : Keeps IsBounded (vpn_loop (stub [] []) 3 10 3 4 (running []))
vpn_loop-Steady_example =
    vpn_loop-Steady (stub [] []) (λ l fd count bytes e. ground arith) 3 10 3 4 (running [])
      (record {
        within = omega arith;
        in_bytes = omega arith;
        out_bytes = omega arith;
        in_packets = omega arith;
        out_packets = omega arith;
      })

-- A packet of one byte and the front of the next message arrive together.
abbrev arriving : Bytes
arriving = frame packet_recv_type (69 ∷ []) ++ 6 ∷ 0 ∷ []

handle_socket-frames_example :
    handle_socket (stub arriving []) 2 (running [])
    ≡ handle_messages
        (stub arriving [])
        (6 ∷ 0 ∷ [])
        []
        (record { type = packet_recv_type; body = 69 ∷ [] } ∷ [])
        (record {
          vars = record ((running arriving).vars) { nreads = 8 };
          log = reads 3 (some arriving) ∷ [];
        })
unfolding header_bytes frame
handle_socket-frames_example =
    handle_socket-frames (stub arriving []) (6 ∷ 0 ∷ [])
      (record { type = packet_recv_type; body = 69 ∷ [] } ∷ []) 2 [] [] arriving (running []) refl
      refl refl refl (omega arith, tt) (no_header (omega arith)) (omega arith)

run_command-Sets_example :
    Returns (Sets [] 4 (running [])) (run_command (stub (8 ∷ []) []) 9 set_tun (running []))
run_command-Sets_example =
    run_command-Sets (stub (8 ∷ []) []) 9 (running [])
      (λ l count some_room. (8 ∷ [], refl, omega arith, omega arith)) refl (omega arith)
