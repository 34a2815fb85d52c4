-- ===== src/Relay/Tests.antt =====
-- The theorems about the server with threads at concrete inputs.
use over.Base.{set, true, ℕ, zero, suc, ◌≡◌, refl, Bool, false, List, [], ◌∷◌, ◌++◌, arith}
use over.Kernel.{Fd, Bytes, Kernel, sent, refused, taken}
use over.Kernel.Stub.{feeder, feeder-Feeds, stub, stub-WritesWithin}
use over.Run.{Machine, Returns, fault}
use over.Relay.Connection.{keep_live_thread}
use over.Relay.Silence.{beats, Closes, keep_live_thread-Closes}
use over.Wire.{header_bytes}
use over.Relay.State.{Vars, ClientConnection}
use over.Relay.Reader.{read_thread}
use over.Relay.Receiving.{In, heartbeat, Live}
use over.Relay.Receiving
use over.Relay.Receiving.Thread.{GoesOn, wires, read_thread-GoesOn}
use over.Relay.Tun.{tun_reader_round}
use over.Relay.Routing.{routed, tun_reader_round-routed}
use over.Relay.Queue.{Passed}
use over.Relay.Queue.Turns.{Turn, arrival, write, answer, beat, run_turns, run_turns-Passed}
use over.Relay.Endings.{end_without_address}

-- A system on which every stream has ended.
abbrev over_and_out : Kernel
over_and_out = stub [] []

abbrev statuses : ℕ → List Bool
statuses zero = []
statuses (suc n) = false ∷ statuses n

abbrev fresh_client : ℕ → ClientConnection
fresh_client count = record {
  socket_fd = 7;
  heart_beat_count = count;
  ipv6 = [];
  ipv4 = [];
  write_queue = [];
}

abbrev server : ℕ → Machine Vars
server count = record {
  vars = record {
    locked = false;
    status = statuses 1024;
    connections = [];
    clients = fresh_client count ∷ [];
    waiting_queue = [];
    tun_fd = 4;
  };
  log = [];
}

end_without_address_example : read_thread over_and_out 5 99 0 [] [] (server 60) ≡ fault
end_without_address_example =
    end_without_address over_and_out 4 99 0 (fresh_client 60) [] [] (server 60) refl (omega arith)
      refl

three_beats : beats 0 60 ≡ header_bytes 0 104 ++ (header_bytes 0 104 ++ header_bytes 0 104)
unfolding beats header_bytes
three_beats = refl

keep_live_thread-Closes_example :
    Returns (λ _ n. Closes 7 (beats 0 60) [] n) (keep_live_thread over_and_out 61 0 (server 0))
keep_live_thread-Closes_example =
    keep_live_thread-Closes over_and_out (stub-WritesWithin [] []) 0 60 61 (fresh_client 0)
      (server 0) refl refl (omega arith)

-- The second packet is still in the queue at the end.
abbrev turns : List Turn
turns = arrival (69 ∷ 0 ∷ []) ∷ beat ∷ write ∷ answer (49 ∷ []) ∷ arrival (69 ∷ 1 ∷ []) ∷ []

run_turns-Passed_example :
    Returns
      (Passed 0 7 0 [] ((69 ∷ 0 ∷ []) ∷ (69 ∷ 1 ∷ []) ∷ []))
      (run_turns over_and_out 0 turns (server 0))
unfolding sent refused
run_turns-Passed_example =
    run_turns-Passed over_and_out (stub-WritesWithin [] []) 0 7 0 [] turns [] (server 0)
      (omega arith, (omega arith, (omega arith, tt)))
      (record {
        connection = fresh_client 0;
        at = refl;
        socket = refl;
        waiting = [];
        queue = refl;
        fit = tt;
        out = [];
        stream = refl;
        order = refl;
        unbroken = refl;
      })

-- A heartbeat, a packet, and a byte of the next message; five bytes of the array hold 7.
abbrev coming : List In
coming = heartbeat 5 ∷ Receiving.packet (69 ∷ 0 ∷ []) ∷ []

read_thread-GoesOn_example :
    GoesOn
      (feeder (wires coming ++ 9 ∷ []))
      0
      7
      4097
      3
      coming
      (7 ∷ 7 ∷ 7 ∷ 7 ∷ 7 ∷ 7 ∷ 7 ∷ [])
      (server 30)
      (read_thread
        (feeder (wires coming ++ 9 ∷ []))
        5
        4097
        0
        (0 ∷ 0 ∷ 0 ∷ 0 ∷ 0 ∷ [])
        (7 ∷ 7 ∷ 7 ∷ 7 ∷ 7 ∷ 7 ∷ 7 ∷ [])
        (server 30))
unfolding taken
read_thread-GoesOn_example =
    read_thread-GoesOn (feeder (wires coming ++ 9 ∷ [])) 0 7 (wires coming ++ 9 ∷ [])
      (feeder-Feeds (wires coming ++ 9 ∷ []) 7) coming 3 4097 (0 ∷ 0 ∷ 0 ∷ 0 ∷ 0 ∷ [])
      (7 ∷ 7 ∷ 7 ∷ 7 ∷ 7 ∷ 7 ∷ 7 ∷ []) (9 ∷ []) (server 30)
      (record { connection = fresh_client 30; at = refl; own = refl; heard = omega arith })
      (tt, (omega arith, tt)) refl (omega arith) refl

-- A packet for 10.128.0.2, the address of client 0.
abbrev inbound : Bytes
inbound = 69 ∷ 0 ∷ 0 ∷ 20 ∷ 0 ∷ 0 ∷ 0 ∷ 0 ∷ 64 ∷ 0 ∷ 0 ∷ 0 ∷ 8 ∷ 8 ∷ 8 ∷ 8 ∷ 10 ∷ 128 ∷ 0 ∷ 2 ∷ []

abbrev connected : Machine Vars
connected = record {
  vars = record ((server 0).vars) {
    status = set (statuses 1024) 2 true;
    connections = (2, 0) ∷ [];
  };
  log = [];
}

tun_reader_round-routed_example :
    Returns
      (λ _ n. (n.vars ≡ routed inbound connected.vars) × ((f : Fd) → sent f n.log ≡ sent f []))
      (tun_reader_round (stub inbound []) connected)
tun_reader_round-routed_example =
    tun_reader_round-routed (stub inbound []) inbound connected refl refl refl (omega arith)
      (omega arith) (omega arith)
