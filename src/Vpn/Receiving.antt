-- ===== src/Vpn/Receiving.antt =====
-- What handle_socket writes to the tun device for the packets of the server.
use over.Base.{
  ℕ, suc, ◌+◌, ◌-◌, ◌<◌, ◌≤◌, ◌≡◌, refl, sym, ap, ◌∙◌, Bool, true, false, pos, some, List, [], ◌∷◌,
  ◌++◌, ◌==◌, arith, ltb, length, take, drop, append_assoc, append-nil, length-append, take-length,
  ==-refl,
}
use over.Kernel.{Fd, Bytes, Kernel, Log, sent}
use over.Run.{Machine, Returns, returns, bind, mono}
use over.Wire.{frame, header_size}
use over.Server.Client.Framing.{Message, frames, Fit, IsPartial}
use over.Vpn.State.{Vars, get_tun_fd, take_padded, buffer_size, packet_recv_type}
use over.Vpn.Memory.{length-take_padded}
use over.Vpn.Socket.{note_packet, handle_socket, count_in}
use over.Vpn.Framing.{take_packet, take_message, handle_messages, handle_socket-frames}

abbrev pub messages : List Bytes → List Message
messages [] = []
messages (p ∷ ps) = record { type = packet_recv_type; body = p } ∷ messages ps

abbrev pub Short : List Bytes → Type 0
Short [] = Unit {0}
Short (p ∷ ps) = (length p + 10 ≤ buffer_size) × Short ps

-- Each packet with the five bytes that are behind it in the array: the header of the next message,
-- or what follows the last one.
unfoldable pub written : Bytes → Bytes → List Bytes → Bytes
written rest stale [] = []
written rest stale (p ∷ ps) =
    let behind = frames (messages ps) ++ rest in
    (p ++ take_padded 5 (behind ++ stale))
    ++ written rest (drop (length behind) (frame packet_recv_type p ++ (behind ++ stale))) ps

-- The run succeeds, the tun device has taken these bytes, and the unfinished message is left.
pub record Writes (tun : Fd) (bytes rest : Bytes) (m : Machine Vars) (r : Bool) (n : Machine Vars)
    : Type 0 where
  pub good : r ≡ true
  pub device : sent tun n.log ≡ sent tun m.log ++ bytes
  pub left : (stale : Bytes) × (n.vars.memory ≡ rest ++ stale)
  pub used : n.vars.nreads ≡ length rest

-- Every write to the descriptor is taken whole.
abbrev pub Takes : Kernel → Fd → Type 0
Takes k fd = (l : Log) (bytes : Bytes) → k.write l fd bytes ≡ some (length bytes)

module _ (k : Kernel) (tun : Fd) (takes : Takes k tun) where
  take_packet-sent :
      (p behind : Bytes) (m : Machine Vars)
      → get_tun_fd m.vars ≡ pos tun
      → length p + 10 ≤ buffer_size
      → Returns
          (λ r n.
            (r ≡ true)
            × (n.vars ≡ count_in (length p + header_size) m.vars)
            × (sent tun n.log ≡ sent tun m.log ++ (p ++ take_padded 5 behind)))
          (take_message k (record { type = packet_recv_type; body = p }) behind m)
  unfolding take_message take_packet note_packet sent
  take_packet-sent p behind m set fits =
      let a : ltb buffer_size (header_size + (length p + header_size)) ≡ false = ground arith in
      rw (set, a, takes m.log (p ++ take_padded 5 behind), whole)
        (returns (refl, refl, rw (==-refl tun, all) refl))
    where
      size : length (p ++ take_padded 5 behind) ≡ length p + header_size
      size = omega (arith, length-append p (take_padded 5 behind), length-take_padded 5 behind)

      whole : (length (p ++ take_padded 5 behind) == length p + header_size) ≡ true
      whole = rw size (==-refl _)

      all :
          take (length (p ++ take_padded 5 behind)) (p ++ take_padded 5 behind)
          ≡ p ++ take_padded 5 behind
      all = take-length _

  module _ (rest : Bytes) where
    handle_messages-Writes :
        (ps : List Bytes) (stale : Bytes) (m : Machine Vars)
        → get_tun_fd m.vars ≡ pos tun
        → Short ps
        → m.vars.memory ≡ (frames (messages ps) ++ rest) ++ stale
        → m.vars.nreads ≡ length (frames (messages ps) ++ rest)
        → Returns
            (Writes tun (written rest stale ps) rest m)
            (handle_messages k rest stale (messages ps) m)
    unfolding handle_messages written get_tun_fd count_in
    handle_messages-Writes [] stale m set short at used =
        returns
          (record { good = refl; device = sym (append-nil _); left = (stale, at); used = used })
    handle_messages-Writes (p ∷ ps) stale m set short at used =
        let behind = frames (messages ps) ++ rest in
        let left = drop (length behind) (frame packet_recv_type p ++ (behind ++ stale)) in
        bind (take_packet-sent p (behind ++ stale) m set short.0) λ r n d. rw d.0 (
          mono (handle_messages-Writes ps left _ (rw d.1 set) short.1 refl refl) λ q o w. record {
            good = w.good;
            device =
                w.device
                ∙ ap (λ z. z ++ written rest left ps) d.2
                ∙ append_assoc (sent tun m.log) (p ++ take_padded 5 (behind ++ stale))
                    (written rest left ps);
            left = w.left;
            used = w.used;
          })

    pub handle_socket-Writes :
        (ps : List Bytes) (f : ℕ) (old stale bytes : Bytes) (m : Machine Vars)
        → get_tun_fd m.vars ≡ pos tun
        → m.vars.memory ≡ old ++ stale
        → m.vars.nreads ≡ length old
        → k.read m.log m.vars.socket_fd (buffer_size - length old) ≡ some bytes
        → old ++ bytes ≡ frames (messages ps) ++ rest
        → Fit (messages ps)
        → Short ps
        → IsPartial rest
        → length ps < f
        → Returns
            (Writes tun (written rest (drop (length bytes) stale) ps) rest m)
            (handle_socket k f m)
    unfolding sent get_tun_fd
    handle_socket-Writes ps f old stale bytes m set at used got joins fit short partial more =
        rw
          (handle_socket-frames k rest (messages ps) f old stale bytes m at used got joins fit
            partial (omega (arith, length-messages ps)))
          (mono (handle_messages-Writes ps (drop (length bytes) stale) _ set short refl refl)
            λ r n w. record { good = w.good; device = w.device; left = w.left; used = w.used })
      where
        length-messages : (qs : List Bytes) → length (messages qs) ≡ length qs
        length-messages [] = refl
        length-messages (q ∷ qs) = ap suc (length-messages qs)
