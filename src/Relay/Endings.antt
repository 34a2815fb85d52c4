-- ===== src/Relay/Endings.antt =====
-- How the reading thread of a client without an address ends.
use over.Base.{Bool-cases, inl, inr, ℕ, suc, ◌≤◌, ◌≡◌, refl, false, some, [], arith, ltb, get_elem?}
use over.Kernel.{Bytes, Kernel}
use over.Run.{Machine, fault}
use over.Text.{scan_unsigned}
use over.Relay.State.{Vars, ClientConnection, client_at}
use over.Relay.Address.{set_ip_status, get_ip_num, lock, last_piece}
use over.Relay.Reader.{read_round, read_thread}

module _ (k : Kernel) where
  -- The reading thread of a client that has no address and whose count of heartbeats is at
  -- least 60 ends in a fault, however many passes of its loop are allowed, from one on.
  pub end_without_address :
      (rounds fuel client : ℕ) (c : ClientConnection) (header bytes : Bytes) (m : Machine Vars)
      → get_elem? m.vars.clients client ≡ some c
      → 60 ≤ c.heart_beat_count
      → c.ipv4 ≡ []
      → read_thread k (suc rounds) fuel client header bytes m ≡ fault
  unfolding read_thread read_round client_at set_ip_status get_ip_num lock last_piece scan_unsigned
  end_without_address rounds fuel client c header bytes m at silent none_yet =
      let a : ltb c.heart_beat_count 60 ≡ false = ground arith in
      rw (at, a, at, none_yet)
        (elim (Bool-cases m.vars.locked) [ inl l ↦ rw l refl | inr u ↦ rw u refl ])
