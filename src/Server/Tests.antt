-- ===== src/Server/Tests.antt =====
-- Concrete runs of the server, and its theorems at concrete inputs.
use over.Base.{
  ◌<◌, ◌≢◌, modify, ap, zero, suc, if◌then◌else◌, ◌==◌, ℕ, ◌≡◌, ◌≢◌, refl, true, false, none, some,
  List, [], ◌∷◌, ◌++◌, arith, length,
}
use over.Kernel.{peers, times, Log, closes, Bytes, Kernel, ReadsWithin}
use over.Kernel.Stub.{stub, stub-WritesWithin}
use over.Run.{Machine, Returns, Keeps, spent, fault}
use over.Wire.{header_bytes, read_header, header_length, u32_at}
use over.Server.State.{User, Vars, data_req}
use over.Server.Pool.{allocate_ip_addr, deallocate_ip_addr, search_by_addr}
use over.Server.Pool.Owners.{owner}
use over.Server.Client.{client_loop}
use over.Server.Client.{process_client}
use over.Server.Client.Serving.{Serves, process_client-Serves}
use over.Server.Client.Framing.{Message, frames, handle_messages, client_loop-frames, no_header}
use over.Server.Pool.Owners.{
  Allocates, Deallocates, allocate_ip_addr-Allocates, deallocate_ip_addr-Deallocates,
  deallocate-allocate,
}
use over.Server.Table.{slot_number}
use over.Server.Beat.{beat_round}
use over.Server.Serve.{event_loop}
use over.Server.Pool.{grant}
use over.Server.Table.Sample.{first_users, first_user, first_users-IsTable, packet}
use over.Server.Steady.{IsState}
use over.Server.Steady.Rounds.{event_loop-Steady, init-IsState}
use over.Server.Tun.Delivery.{Tunnels, process_tun-Tunnels}
use over.Server.Beat.Ends.{Ends, process_heartbeat-Ends}
use over.Server.Beat.{process_heartbeat}
use over.Server.Beat.Silence.{Beats, beat_round-Beats, beat_round_silent}
use over.Io.{write_all}
use over.Io.Delivery.{Delivers, write_all-Delivers}
use over.Server.Tun.{process_tun}
use over.Server.Tun.Unknown.{process_tun_unknown}
use over.Server.Client.Faults.{client_loop_zero_length, client_loop_negative}
use over.Server.Boot.{init_users, init_bufs, slot_addr}

abbrev calm : Bytes → Kernel
calm packet = stub packet []

abbrev free_user : ℕ → User
free_user i = record {
  addr = slot_addr i;
  status = true;
  fd = none;
  last_sent = 0;
  last_recved = 0;
  v4addr = 0;
  v6addr = [];
}

-- Descriptor 4 is the tun device; 0 to 3 have buffers with nothing in them.
abbrev machine : List User → Bytes → Machine Vars
machine users buf = record {
  vars = record {
    users = users;
    bufs = [] ∷ [] ∷ buf ∷ [] ∷ [] ∷ [];
    server_fd = some 3;
    tun_fd = some 4;
    epoll_fd = some 5;
  };
  log = [];
}

abbrev two_messages : List Message
two_messages = record { type = data_req; body = 69 ∷ 0 ∷ [] } ∷ record { type = 7; body = [] } ∷ []

client_loop-frames_example :
    client_loop (calm []) 3 2 4 (machine [] (frames two_messages ++ 9 ∷ []))
    ≡ handle_messages
        (calm [])
        2
        4
        (9 ∷ [])
        two_messages
        (machine [] (frames two_messages ++ 9 ∷ []))
client_loop-frames_example =
    client_loop-frames (calm []) 2 4 (9 ∷ []) two_messages 3
      (machine [] (frames two_messages ++ 9 ∷ [])) (omega arith) (no_header (omega arith))
      (omega arith) refl

client_loop_zero_length_example :
    client_loop (calm []) 1000 2 4 (machine [] (header_bytes 0 7)) ≡ spent
unfolding header_bytes read_header header_length
client_loop_zero_length_example =
    client_loop_zero_length (calm []) 2 4 1000 (machine [] (header_bytes 0 7)) (header_bytes 0 7)
      refl (omega arith) refl (omega arith) (omega arith)

client_loop_negative_example :
    client_loop (calm []) 1 2 4 (machine [] (header_bytes 4294967295 7)) ≡ fault
unfolding header_bytes read_header header_length
client_loop_negative_example =
    client_loop_negative (calm []) 2 4 0 0 (machine [] (header_bytes 4294967295 7))
      (header_bytes 4294967295 7) refl (omega arith) refl (omega arith) (omega arith) (omega arith)

allocate_ip_addr-Allocates_example :
    Returns
      (Allocates 2 (machine (free_user 2 ∷ []) []))
      (allocate_ip_addr (calm []) 2 (machine (free_user 2 ∷ []) []))
allocate_ip_addr-Allocates_example =
    allocate_ip_addr-Allocates (calm []) 2 (machine (free_user 2 ∷ []) [])

-- Entry 2 in the hands of client 2, last heard of at `heard`.
abbrev held_user : ℕ → User
held_user heard = record {
  addr = slot_addr 2;
  status = false;
  fd = some 2;
  last_sent = 90;
  last_recved = heard;
  v4addr = slot_number 2;
  v6addr = [];
}

deallocate_ip_addr-Deallocates_example :
    Returns
      (Deallocates 2 (machine (held_user 0 ∷ []) []))
      (deallocate_ip_addr (calm []) 2 (machine (held_user 0 ∷ []) []))
deallocate_ip_addr-Deallocates_example =
    deallocate_ip_addr-Deallocates (calm []) 2 (machine (held_user 0 ∷ []) [])

nobody : (i : ℕ) → owner (free_user 2 ∷ []) i ≢ some 2
nobody zero e = cc
nobody (suc i) e = cc

deallocate-allocate_example :
    Returns
      (λ r n.
        Returns
          (λ r' o. (r' ≡ r) × ((j : ℕ) → owner o.vars.users j ≡ owner (free_user 2 ∷ []) j))
          (deallocate_ip_addr (calm []) 2 n))
      (allocate_ip_addr (calm []) 2 (machine (free_user 2 ∷ []) []))
deallocate-allocate_example = deallocate-allocate (calm []) 2 (machine (free_user 2 ∷ []) []) nobody

write_all-Delivers_example :
    Returns
      (Delivers {S = Vars} 2 (1 ∷ 2 ∷ []) 2 (machine [] []))
      (write_all (calm []) 2 (1 ∷ 2 ∷ []) (machine [] []))
write_all-Delivers_example =
    write_all-Delivers (calm []) (stub-WritesWithin [] []) 2 (1 ∷ 2 ∷ []) (machine [] [])

beat_round-Beats_example :
    Returns
      (λ _. Beats 0 2 100 (held_user 50) (machine (held_user 50 ∷ []) []))
      (beat_round (calm []) 0 (machine (held_user 50 ∷ []) []))
beat_round-Beats_example =
    beat_round-Beats (calm []) (stub-WritesWithin [] []) 0 2 (held_user 50)
      (machine (held_user 50 ∷ []) []) refl refl refl (omega arith)

beat_round_silent_example :
    Returns
      (λ _ n.
        (h : ℕ) × (owner (held_user 10 ∷ []) h ≡ some 2)
        × ((j : ℕ) → j < h → owner (held_user 10 ∷ []) j ≢ some 2)
        × ((j : ℕ) → owner n.vars.users j ≡ (if h == j then none else owner (held_user 10 ∷ []) j))
        × ((l : Log) × (n.log ≡ closes 2 ∷ l)))
      (beat_round (calm []) 0 (machine (held_user 10 ∷ []) []))
beat_round_silent_example =
    beat_round_silent (calm []) (stub-WritesWithin [] []) 0 2 (held_user 10)
      (machine (held_user 10 ∷ []) []) refl refl refl (omega arith) (λ l. refl)

-- An IPv4 header with destination 13.8.0.9 and no payload.
abbrev stray_packet : Bytes
stray_packet =
    69 ∷ 0 ∷ 0 ∷ 20 ∷ 0 ∷ 0 ∷ 0 ∷ 0 ∷ 64 ∷ 0 ∷ 0 ∷ 0 ∷ 8 ∷ 8 ∷ 8 ∷ 8 ∷ 13 ∷ 8 ∷ 0 ∷ 9 ∷ []

process_tun_unknown_example :
    process_tun (calm stray_packet) 1000 4 (machine (held_user 0 ∷ []) []) ≡ spent
unfolding search_by_addr u32_at
process_tun_unknown_example =
    process_tun_unknown (calm stray_packet) 4 stray_packet (omega arith) 1000
      (machine (held_user 0 ∷ []) []) refl refl refl

process_tun-Tunnels_example :
    Returns
      (λ _. Tunnels 4 2 packet (machine first_users []))
      (process_tun (calm packet) 2 4 (machine first_users []))
unfolding first_users first_user u32_at
process_tun-Tunnels_example =
    process_tun-Tunnels (calm packet) (stub-WritesWithin packet []) 4 2 2 packet first_user 0
      (machine first_users []) first_users-IsTable refl refl refl refl refl refl (omega arith) refl

calm-ReadsWithin : ReadsWithin (calm [])
calm-ReadsWithin l fd count bytes e =
    let none_read : [] ≡ bytes = cc (e) in omega (arith, ap length none_read)

-- The variables at the start of the event loop.
abbrev started : Vars
started = record ((machine [] []).vars) { users = init_users; bufs = init_bufs }

event_loop-Steady_example :
    Keeps IsState (event_loop (calm []) 3 10 3 4 (record { vars = started; log = [] }))
event_loop-Steady_example =
    event_loop-Steady (calm []) calm-ReadsWithin 10 3 4 3 (record { vars = started; log = [] })
      (init-IsState started)

abbrev two_free : List User
two_free = free_user 2 ∷ free_user 3 ∷ []

abbrev granted : ℕ → Machine Vars → Machine Vars
granted i m = record {
  vars = record (m.vars) { users = modify (grant 2 100 100 []) i m.vars.users };
  log = peers 2 [] ∷ times 100 ∷ times 100 ∷ m.log;
}

-- Client 2 holds entry 2, and a part of a message is in its buffer.
abbrev serving : Machine Vars
serving = machine (held_user 95 ∷ []) (frames two_messages)

process_client-Serves_example :
    Returns
      (λ _ n. Serves 2 4 two_messages (9 ∷ []) serving n)
      (process_client (calm (9 ∷ [])) 3 2 4 serving)
process_client-Serves_example =
    process_client-Serves (calm (9 ∷ [])) (stub-WritesWithin (9 ∷ []) []) 2 4 (9 ∷ []) two_messages
      (frames two_messages) (9 ∷ []) 3 serving (0, refl) refl refl (λ e. cc) refl
      (omega arith, (omega arith, tt)) (no_header (omega arith)) (omega arith)

process_heartbeat-Ends_example :
    Returns
      (λ _. Ends (machine first_users []))
      (process_heartbeat (calm []) (machine first_users []))
unfolding first_users
process_heartbeat-Ends_example =
    process_heartbeat-Ends (calm []) (stub-WritesWithin [] []) (machine first_users []) refl
