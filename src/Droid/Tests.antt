-- ===== src/Droid/Tests.antt =====
-- The theorems about the C server at concrete inputs.
use over.Base.{◌≡◌, refl, inl, List, [], ◌∷◌, ◌++◌, arith, length}
use over.Kernel.{cut_short, Bytes, Kernel, sent, taken}
use over.Kernel.Stub.{stub, stub-WritesWithin}
use over.Run.{Machine, Returns}
use over.Wire.{header_bytes, u32_bytes}
use over.Io.Delivery.{Sends}
use over.Server.Client.Framing.{Message, frames}
use over.Vpn.Socket.{ip_reply}
use over.Vpn.Sends.{joined}
use over.Vpn.Stub.{running}
use over.Droid.State.{Vars, reply_bytes}
use over.Droid.Messages.{over6_handle}
use over.Droid.Framing.{handle_messages, over6_handle-frames}
use over.Droid.Reply.{config, ip_reply-reply_bytes}
use over.Droid.Upload.{Flowing, Framed}
use over.Droid.Upload.Turns.{tun_ready, client_ready, run_turns, run_turns-Framed}

-- The client is 6 and the tun device 8.
abbrev server : Bytes → Machine Vars
server packets = record {
  vars = record {
    over6_packet_buffer = packets;
    ip_buffer = [];
    remain = 0;
    over6_fd = 6;
    tun_dev_fd = 8;
    last_heartbeat = 90;
  };
  log = [];
}

abbrev arrived : List Message
arrived =
    record { type = 104; body = [] }
    ∷ record { type = 102; body = 69 ∷ 0 ∷ [] }
    ∷ record { type = 100; body = [] }
    ∷ []

over6_handle-frames_example :
    over6_handle (stub [] []) 4 8 (server (frames arrived ++ 7 ∷ []))
    ≡ handle_messages (stub [] []) 8 (7 ∷ []) arrived (server (frames arrived ++ 7 ∷ []))
over6_handle-frames_example =
    over6_handle-frames (stub [] []) 8 (7 ∷ []) arrived 4 (server (frames arrived ++ 7 ∷ []))
      (omega arith, (omega arith, (omega arith, tt))) (inl (omega arith)) (omega arith) refl

ip_reply-reply_bytes_example :
    Returns
      (Sends cut_short 5 (joined (config ++ u32_bytes 3 ∷ [])) (running []))
      (ip_reply (stub [] (51 ∷ 51 ∷ [])) reply_bytes (running []))
ip_reply-reply_bytes_example = ip_reply-reply_bytes (stub [] (51 ∷ 51 ∷ [])) (running [])

abbrev busy : Kernel
busy = stub (69 ∷ 0 ∷ []) []

busy-Flowing : Flowing busy 6
unfolding header_bytes u32_bytes
busy-Flowing = record {
  whole = λ l len type. refl;
  part = λ l bytes filled. (
    length bytes,
    refl,
    (stub-WritesWithin [] [] l 6 bytes (length bytes) filled refl).0,
    omega arith,
  );
}

run_turns-Framed_example :
    Returns
      (λ _ n. Framed 6 8 [] [] n)
      (run_turns busy 6500000 6 8 (tun_ready ∷ client_ready ∷ tun_ready ∷ []) (server []))
unfolding sent taken
run_turns-Framed_example =
    run_turns-Framed busy 6 8 6500000 (tun_ready ∷ client_ready ∷ tun_ready ∷ []) (server [])
      (λ e. absurd (omega arith)) busy-Flowing (omega arith) refl refl refl refl
