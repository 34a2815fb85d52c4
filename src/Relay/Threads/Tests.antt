-- ===== src/Relay/Threads/Tests.antt =====
-- The theorems about the reading threads at concrete inputs.
use over.Base.{ℕ, Option, zero, suc, ◌≡◌, refl, Bool, false, true, some, List, [], ◌∷◌, set, ◌++◌}
use over.Run.{Out, machine_of, Machine, Returns}
use over.Kernel.{Bytes}
use over.Kernel.Stub.{stub}
use over.Io.{write_all}
use over.Wire.{header_bytes}
use over.Relay.State.{Vars, ClientConnection}
use over.Relay.Reader.{ip_request, info_tail}
use over.Relay.Threads.Code.{ip_request-Reach}
use over.Text.{scan_unsigned}
use over.Relay.Address.{
  last_piece, free_number, ip_of, get_ip_num, get_free_ip, set_ip_status, set_connection_with_ip,
  get_connection_by_ip, connect_ip, lock, unlock, status_at, set_status,
}
use over.Relay.Threads.{
  idle, chosen, marked, connected, choose, mark, connect, Threads, update, Reach, start, later,
  call,
}
use over.Relay.Threads.Calls.{number_of}
use over.Relay.Threads.Safety.{one_holder, get_connection_by_ip-connected}
use over.Relay.Threads.Abandon.{lend, address_given_twice}

abbrev statuses : ℕ → List Bool
statuses zero = []
statuses (suc n) = false ∷ statuses n

abbrev machine : List Bool → List (ℕ × ℕ) → Machine Vars
machine status connections = record {
  vars = record {
    locked = false;
    status = status;
    connections = connections;
    clients = [];
    waiting_queue = [];
    tun_fd = 4;
  };
  log = [];
}

-- One client has come in by its three calls.
abbrev served : Threads
served = record {
  machine = machine (set (statuses 1024) 2 true) ((2, 7) ∷ []);
  place =
      update (update (update (λ i. idle) 7 (chosen (ip_of 2))) 7 (marked (ip_of 2))) 7
        (connected (ip_of 2));
}

served-Reach : Reach served
unfolding get_free_ip lock unlock free_number set_ip_status get_ip_num status_at set_status
    set_connection_with_ip connect_ip
served-Reach =
    let first = start (machine (statuses 1024) []) refl in
    let second =
      later first (call 7 (choose {n = machine (statuses 1024) []} {ip = ip_of 2} refl)) in
    let third = later second (call 7 (mark {n = machine (set (statuses 1024) 2 true) []} refl)) in
    later third (call 7 (connect {n = machine (set (statuses 1024) 2 true) ((2, 7) ∷ [])} refl))

reads_two : number_of (ip_of 2) ≡ some 2
unfolding number_of scan_unsigned last_piece ip_of
reads_two = refl

one_holder_example : ◌≡◌ {A = ℕ} 7 7
one_holder_example = one_holder served 7 7 2 served-Reach reads_two reads_two

get_connection_by_ip-connected_example :
    Returns (λ r _. r ≡ some 7) (get_connection_by_ip (ip_of 2) served.machine)
get_connection_by_ip-connected_example =
    get_connection_by_ip-connected served 7 2 (ip_of 2) served-Reach refl reads_two

address_given_twice_example :
    Returns (λ r _. (r.0 ≡ r.1) × (r.2 ≡ some 9)) (lend 8 9 (machine (statuses 1024) []))
unfolding free_number
address_given_twice_example = address_given_twice 2 (machine (statuses 1024) []) refl refl refl 8 9

-- A client that has just connected.
abbrev newcomer : ClientConnection
newcomer = record { socket_fd = 7; heart_beat_count = 0; ipv6 = []; ipv4 = []; write_queue = [] }

abbrev waiting : Threads
waiting = record {
  machine = record {
    vars = record ((machine (statuses 1024) []).vars) { clients = newcomer ∷ [] };
    log = [];
  };
  place = λ i. idle;
}

abbrev answer : Out Vars (Option Bytes)
answer = ip_request (stub [] []) 0 waiting.machine

ip_request-Reach_example :
    (t : Threads) × (ip : Bytes) × (Reach t)
    × (t.machine ≡ machine_of answer waiting.machine)
    × (t.place 0 ≡ connected ip)
    × (ip_of 2 ++ info_tail ≡ ip ++ info_tail)
unfolding ip_request write_all header_bytes
ip_request-Reach_example =
    ip_request-Reach (stub [] []) waiting 0 newcomer (ip_of 2 ++ info_tail)
      (machine_of answer waiting.machine) (start waiting.machine refl) refl refl refl refl
