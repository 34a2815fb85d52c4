-- ===== src/Vpn/Outgoing.antt =====
-- What the client sends to the server: packets of the tunnel and heartbeats.
use over.Base.{
  suc, ◌==◌, ltb→lt, ℕ, ◌+◌, ◌<◌, ◌≤◌, ◌≡◌, ◌≢◌, ◌⊎◌, inl, inr, refl, ap, Bool, true, false, pos,
  some, [], ◌∷◌, ◌++◌, arith, ltb, length, append-nil, Bool-cases, if◌then◌else◌, subst,
}
use over.Kernel.{cut_short, Fd, Bytes, Kernel, sent, times, reads}
use over.Run.{Machine, Returns, returns, mono, bind, put_vars, pure, ◌>>◌}
use over.Wire.{frame, header_bytes, header_size}
use over.Server.State.{data_req, heartbeat}
use over.Vpn.State.{
  Vars, get_tun_fd, packet_send_type, heartbeat_type, timeout_secs, interval_secs, buffer_size,
}
use over.Vpn.Handlers.{count_out, send_packet, handle_tunnel, send_heartbeat, handle_heartbeat}
use over.Io.Delivery.{Sends}
use over.Vpn.Sends.{joined, write_each-Sends}

-- The message goes out as a whole and the handler notes it, or a part of it goes out, since a write
-- was not taken whole, and the variables stay as they were.
pub record Passes (fd : Fd) (bytes : Bytes) (noted : Vars) (m : Machine Vars) (r : Bool)
    (n : Machine Vars) : Type 0 where
  pub others : (f : Fd) → f ≢ fd → sent f n.log ≡ sent f m.log
  pub stopped : r ≡ false → cut_short fd m.log < cut_short fd n.log
  pub went_on : r ≡ true → cut_short fd n.log ≡ cut_short fd m.log
  pub outcome :
      ((r ≡ true) × (n.vars ≡ noted) × (sent fd n.log ≡ sent fd m.log ++ bytes))
      ⊎ ((r ≡ false)
          × (n.vars ≡ m.vars)
          × (part : Bytes) × (behind : Bytes) × (part ++ behind ≡ bytes)
          × (sent fd n.log ≡ sent fd m.log ++ part))

-- The three cases of handle_heartbeat.
pub data Beating (now : ℕ) (m : Machine Vars) (r : Bool) (n : Machine Vars) : Type 0 where
  silent :
      m.vars.last_from_server + timeout_secs < now
      → r ≡ false
      → n.vars ≡ m.vars
      → ((f : Fd) → sent f n.log ≡ sent f m.log)
      → Beating now m r n
  idle :
      now ≤ m.vars.last_from_server + timeout_secs
      → now ≤ m.vars.last_to_server + interval_secs
      → r ≡ true
      → n.vars ≡ m.vars
      → ((f : Fd) → sent f n.log ≡ sent f m.log)
      → Beating now m r n
  due :
      now ≤ m.vars.last_from_server + timeout_secs
      → m.vars.last_to_server + interval_secs < now
      → Passes m.vars.socket_fd
          (frame heartbeat [])
          (record (m.vars) { last_to_server = now })
          m
          r
          n
      → Beating now m r n

module _ (k : Kernel) where
  -- The end that both senders have in common.
  note_sent :
      (fd : Fd) (bytes : Bytes) (f : Vars → Vars) (m : Machine Vars) (r : Bool) (n : Machine Vars)
      → Sends cut_short fd bytes m r n
      → Returns
          (Passes fd bytes (f m.vars) m)
          ((if r then (put_vars (f n.vars) >> pure true) else pure false) n)
  note_sent fd bytes f m r n d = elim d.outcome [
    | inl (e, s) ↦ rw e (
        returns (record {
          others = d.others;
          stopped = λ no. absurd (cc);
          went_on = λ yes. d.went_on e;
          outcome = inl (refl, ap f d.same, s);
        }))
    | inr (e, part, behind, p, t) ↦ rw e (
        returns (record {
          others = d.others;
          stopped = λ no. d.stopped e;
          went_on = λ yes. absurd (cc);
          outcome = inr (refl, d.same, part, behind, p, t);
        }))
  ]

  whole_frame :
      (packet : Bytes)
      → joined (header_bytes (length packet + header_size) packet_send_type ∷ packet ∷ [])
        ≡ frame data_req packet
  unfolding joined frame
  whole_frame packet =
      ap (◌++◌ (header_bytes (length packet + header_size) data_req)) (append-nil packet)

  -- The packet as one message of type MSG_DATA_REQ, which is what the server's loop takes apart.
  pub send_packet-Passes :
      (packet : Bytes) (m : Machine Vars)
      → Returns
          (Passes m.vars.socket_fd (frame data_req packet) (count_out (length packet) m.vars) m)
          (send_packet k packet m)
  unfolding send_packet
  send_packet-Passes packet m =
      bind
        (write_each-Sends k m.vars.socket_fd
          (header_bytes (length packet + header_size) packet_send_type ∷ packet ∷ []) m)
        λ r n d.
          note_sent m.vars.socket_fd (frame data_req packet) (count_out (length packet)) m r n
            (subst (λ b. Sends cut_short m.vars.socket_fd b m r n) (whole_frame packet) d)

  -- When the tun device is set and a packet that is not empty is read from it, handle_tunnel
  -- returns, no stream but the socket's changes, and either it reports success, the counters of
  -- outgoing packets and bytes have grown and the socket has taken exactly one message of type
  -- MSG_DATA_REQ with the packet as body, or it reports failure, no variable has changed and the
  -- socket has taken a part of that message from the front.
  pub handle_tunnel-Passes :
      (tun : Fd) (b : ℕ) (packet : Bytes) (m : Machine Vars)
      → get_tun_fd m.vars ≡ pos tun
      → k.read m.log tun buffer_size ≡ some (b ∷ packet)
      → Returns
          (Passes m.vars.socket_fd
            (frame data_req (b ∷ packet))
            (count_out (length (b ∷ packet)) m.vars)
            m)
          (handle_tunnel k m)
  unfolding handle_tunnel sent cut_short
  handle_tunnel-Passes tun b packet m set got =
      let some_byte : (suc (length packet) == 0) ≡ false = ground arith in
      rw (set, got, some_byte)
        (mono
          (send_packet-Passes (b ∷ packet)
            (record m { log = reads tun (some (b ∷ packet)) ∷ m.log }))
          λ r n d. record {
            others = d.others;
            stopped = d.stopped;
            went_on = d.went_on;
            outcome = d.outcome;
          })

  send_heartbeat-Passes :
      (now : ℕ) (m : Machine Vars)
      → Returns
          (Passes m.vars.socket_fd
            (frame heartbeat [])
            (record (m.vars) { last_to_server = now })
            m)
          (send_heartbeat k now m)
  unfolding send_heartbeat joined frame header_bytes
  send_heartbeat-Passes now m =
      bind (write_each-Sends k m.vars.socket_fd (header_bytes header_size heartbeat_type ∷ []) m)
        λ r n d.
          note_sent m.vars.socket_fd (frame heartbeat []) (λ s. record s { last_to_server = now }) m
            r n d

  -- handle_heartbeat always returns: with failure and without an effect if the server was last
  -- heard of more than 60 seconds ago; else with success and without an effect if the client's
  -- last heartbeat is at most 20 seconds old; else either with success after one whole
  -- heartbeat, whose time is noted, or, when the write was not taken whole, with failure after a
  -- part of it and with no variable changed.
  pub handle_heartbeat-Beating :
      (m : Machine Vars) → Returns (Beating (k.time m.log) m) (handle_heartbeat k m)
  unfolding handle_heartbeat sent cut_short
  handle_heartbeat-Beating m =
      let now = k.time m.log in
      elim (Bool-cases (ltb (m.vars.last_from_server + timeout_secs) now)) [
        | inl late ↦ rw late (returns (silent (ltb→lt _ _ late) refl refl (λ f. refl)))
        | inr heard ↦
            rw heard (elim (Bool-cases (ltb (m.vars.last_to_server + interval_secs) now)) [
              | inr recent ↦
                  rw recent
                    (returns (idle (ltb-le _ _ heard) (ltb-le _ _ recent) refl refl (λ f. refl)))
              | inl old ↦ rw old (
                  mono (send_heartbeat-Passes now (record m { log = times now ∷ m.log })) λ r n d.
                    due (ltb-le _ _ heard) (ltb→lt _ _ old) (record {
                      others = d.others;
                      stopped = d.stopped;
                      went_on = d.went_on;
                      outcome = d.outcome;
                    }))
            ])
      ]
    where
      ltb-le : (a b : ℕ) → ltb a b ≡ false → b ≤ a
      ltb-le a b h = ground arith
