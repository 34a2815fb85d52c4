-- ===== src/Relay/Threads.antt =====
-- The reading threads of clientConnection.cpp side by side: each takes the mutex for one call at a
-- time, so a run is a sequence of their calls in any order.
pub mod Calls
pub mod Safety
pub mod Abandon
pub mod Code
mod Tests
use over.Base.{ℕ, ◌≡◌, true, false, ◌==◌, if◌then◌else◌}
use over.Kernel.{Bytes}
use over.Run.{Machine, ok}
use over.Relay.State.{Vars}
use over.Relay.Address.{get_free_ip, set_ip_status, set_connection_with_ip}

-- Where a reading thread stands between its calls, with the address of its client: without one,
-- with one that getFreeIP gave, after setIpStatus(true), after setConnectionWithIp, and at its end.
pub data Place : Type 0 where
  idle : Place
  chosen marked connected : Bytes → Place
  gone : Place

-- The calls of a client's thread that return. The reply goes out between `choose` and `mark`.
pub data Move (client : ℕ) (m : Machine Vars) : Place → Machine Vars → Place → Type 0 where
  choose :
      {n : Machine Vars} {ip : Bytes} → get_free_ip m ≡ ok ip n → Move client m idle n (chosen ip)
  mark :
      {n : Machine Vars} {ip : Bytes}
      → set_ip_status ip true m ≡ ok tt n
      → Move client m (chosen ip) n (marked ip)
  connect :
      {n : Machine Vars} {ip : Bytes}
      → set_connection_with_ip ip client m ≡ ok tt n
      → Move client m (marked ip) n (connected ip)
  release :
      {n : Machine Vars} {ip : Bytes}
      → set_ip_status ip false m ≡ ok tt n
      → Move client m (connected ip) n gone

pub record Threads : Type 0 where
  pub machine : Machine Vars
  pub place : ℕ → Place

abbrev pub update : {A : Type 0} → (ℕ → A) → ℕ → A → ℕ → A
update f i a j = if i == j then a else f j

-- A call of one of the reading threads, or anything that leaves the table, the map and the mutex
-- as they are.
pub data Step (s : Threads) : Threads → Type 0 where
  call :
      (i : ℕ) {n : Machine Vars} {p : Place}
      → Move i s.machine (s.place i) n p
      → Step s (record { machine = n; place = update s.place i p })
  elsewhere :
      (n : Machine Vars)
      → n.vars.status ≡ s.machine.vars.status
      → n.vars.connections ≡ s.machine.vars.connections
      → n.vars.locked ≡ s.machine.vars.locked
      → Step s (record { machine = n; place = s.place })

pub data Reach : Threads → Type 0 where
  start :
      (m : Machine Vars) → m.vars.locked ≡ false → Reach (record { machine = m; place = λ i. idle })
  later : {s t : Threads} → Reach s → Step s t → Reach t
