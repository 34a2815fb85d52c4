-- ===== src/Tunnel/Up.antt =====
-- Packets from the client to the server.
use over.Base.{
  ◌+◌, Option, ℕ, suc, ◌<◌, ◌≡◌, ◌⊎◌, inl, inr, refl, sym, ap, ◌∙◌, Bool, true, false, some, List,
  [], ◌∷◌, ◌++◌, arith, length, take, drop, get_elem?, append_assoc, append-nil, append-cancel,
  take-append-drop, get_elem?-set_self, get_elem?-lt, lt→ltb, ltb, if◌then◌else◌, subst, ◌-◌, ◌≢◌,
  not,
}
use over.Kernel.{refused, Fd, Bytes, Kernel, WritesWithin, sent}
use over.Run.{Machine, pure, ok, Returns, returns, returned, bind, mono, ◌>>=◌}
use over.Wire.{frame}
use over.Server.State as Server
use over.Server.State.{data_req, short, set_buf, buf_at, buf_size}
use over.Server.Client.{dispatch, data_request, process_client}
use over.Server.Client.Framing.{
  Message, frames, Fit, IsPartial, handle_messages, process_client-frames, received,
  received_buffer,
}
use over.Io.Delivery.{Delivers, Delivers-refused, write_all-Delivers}
use over.Vpn.State as Vpn
use over.Vpn.Handlers.{send_packet, count_out}
use over.Vpn.Sends.{joined}
use over.Vpn.Outgoing.{send_packet-Passes}

abbrev pub messages : List Bytes → List Message
messages [] = []
messages (p ∷ ps) = record { type = data_req; body = p } ∷ messages ps

length-messages : (ps : List Bytes) → length (messages ps) ≡ length ps
length-messages [] = refl
length-messages (p ∷ ps) = ap suc (length-messages ps)

-- handle_tunnel for one packet after the other, from where the packet has been read.
unfoldable pub send_packets : Kernel → List Bytes → Vpn.Command Bool
send_packets k [] = pure true
send_packets k (p ∷ ps) = send_packet k p >>= λ good. if good then send_packets k ps else pure false

-- What a run that reports success has sent.
record Uploads (ps : List Bytes) (m : Machine Vpn.Vars) (r : Bool) (n : Machine Vpn.Vars)
    : Type 0 where
  bytes :
      r ≡ true → sent m.vars.socket_fd n.log ≡ sent m.vars.socket_fd m.log ++ frames (messages ps)

module _ (k : Kernel) where
  send_packets-Uploads :
      (ps : List Bytes) (m : Machine Vpn.Vars) → Returns (Uploads ps m) (send_packets k ps m)
  unfolding send_packets count_out
  send_packets-Uploads [] m = returns (record { bytes = λ e. sym (append-nil _) })
  send_packets-Uploads (p ∷ ps) m = bind (send_packet-Passes k p m) λ r n d. elim d.outcome [
    | inr (e, _, _, _, _, _) ↦ rw e (returns (record { bytes = λ f. cc }))
    | inl (e, noted, s) ↦
        let fd : n.vars.socket_fd ≡ m.vars.socket_fd = ap (λ v. v.socket_fd) noted in
        rw e (
          mono (send_packets-Uploads ps n) λ q o u. record {
            bytes = λ f.
                subst (λ z. sent z o.log ≡ sent z n.log ++ frames (messages ps)) fd (u.bytes f)
                ∙ ap (λ z. z ++ frames (messages ps)) s
                ∙ append_assoc _ (frame data_req p) (frames (messages ps));
          })
  ]

-- The tun device has taken all the bytes and the client's buffer holds what was left, or a write
-- to it has failed after a part of them.
pub data Carried (c t : Fd) (rest bytes : Bytes) (m n : Machine Server.Vars) : Type 0 where
  whole :
      get_elem? n.vars.bufs c ≡ some rest
      → sent t n.log ≡ sent t m.log ++ bytes
      → Carried c t rest bytes m n
  cut :
      (part behind : Bytes)
      → part ++ behind ≡ bytes
      → sent t n.log ≡ sent t m.log ++ part
      → refused t m.log < refused t n.log
      → Carried c t rest bytes m n

module _ (k : Kernel) (fits : WritesWithin k) (c t : Fd) (rest : Bytes) where
  data_request-sent :
      (p : Bytes) (m : Machine Server.Vars)
      → Returns
          (λ r n.
            ((r ≡ true)
              × (n.vars ≡ m.vars)
              × (sent t n.log ≡ sent t m.log ++ p)
              × (refused t n.log ≡ refused t m.log))
            ⊎ ((r ≡ false)
                × (q : ℕ) × (sent t n.log ≡ sent t m.log ++ take q p)
                × (refused t n.log ≡ 1 + refused t m.log)))
          (dispatch k c t data_req p m)
  unfolding dispatch data_request
  data_request-sent p m = bind (write_all-Delivers k fits t p m) λ r n d. elim d.outcome [
    | inl (e, s) ↦ rw e (returns (inl (ap not (irrefl (length p)), d.same, s, went n d e)))
    | inr (e, (q, _, s)) ↦ rw e (returns (inr (refl, q, s, Delivers-refused t p _ m r n d e)))
  ]
    where
      went :
          {r : Option ℕ} (n : Machine Server.Vars)
          → Delivers t p (length p) m r n
          → r ≡ some (length p)
          → refused t n.log ≡ refused t m.log
      went n d e = d.refusals ∙ rw e (omega arith)

      irrefl : (n : ℕ) → ltb n n ≡ false
      irrefl n = ground arith

  handle_messages-Carried :
      (ps : List Bytes) (m : Machine Server.Vars)
      → get_elem? m.vars.bufs c ≡ some (frames (messages ps) ++ rest)
      → Returns
          (λ _ n. Carried c t rest (joined ps) m n)
          (handle_messages k c t rest (messages ps) m)
  unfolding handle_messages joined set_buf
  handle_messages-Carried [] m e = returns (whole e (sym (append-nil _)))
  handle_messages-Carried (p ∷ ps) m e = bind (data_request-sent p m) λ r n d. elim d [
    | inr (f, q, s, bad) ↦ rw f (
        returns (
          cut (take q p) (drop q p ++ joined ps)
            (sym (append_assoc (take q p) (drop q p) (joined ps))
              ∙ ap (λ z. z ++ joined ps) (take-append-drop q p))
            s (omega (arith, bad))))
    | inl (g, same, s, good) ↦
        let more = frames (messages ps) ++ rest in
        let lt : c < length n.vars.bufs =
          get_elem?-lt n.vars.bufs c (ap (λ v. get_elem? v.bufs c) same ∙ e) in
        rw (g, lt→ltb c (length n.vars.bufs) lt)
          (mono (handle_messages-Carried ps _ (get_elem?-set_self n.vars.bufs c more lt)) λ _ o.
            elim [
              | whole empty v ↦
                  whole empty
                    (v ∙ ap (λ z. z ++ joined ps) s ∙ append_assoc (sent t m.log) p (joined ps))
              | cut part behind w v bad ↦
                  cut (p ++ part) behind (append_assoc p part behind ∙ ap (◌++◌ p) w)
                    (v ∙ ap (λ z. z ++ part) s ∙ append_assoc (sent t m.log) p part)
                    (omega (arith, bad, good))
            ])
  ]

  -- When a run of the client that sends packets one after the other reports success, every
  -- packet with its header is shorter than 2^31 bytes, what the server has in the buffer of that
  -- client and the bytes that a read then gives, one at least, are together the bytes that the
  -- client's socket has taken meanwhile, with an unfinished message behind them, and write fails
  -- or takes between one byte and the whole of a block that is not empty, then process_client
  -- returns, given a round for each packet and one more, and either the tun device has taken
  -- exactly the packets, in order, and the buffer holds the unfinished message, or a write to
  -- the tun device has failed meanwhile and it has taken a part of the packets from the front.
  pub upload :
      (kc : Kernel) (ps : List Bytes) (cm cn : Machine Vpn.Vars) (sm : Machine Server.Vars)
      (got old bytes : Bytes) (f : ℕ)
      → send_packets kc ps cm ≡ ok true cn
      → sent cm.vars.socket_fd cn.log ≡ sent cm.vars.socket_fd cm.log ++ got
      → get_elem? sm.vars.bufs c ≡ some old
      → k.read sm.log c (buf_size - length old) ≡ some bytes
      → bytes ≢ []
      → old ++ bytes ≡ got ++ rest
      → IsPartial rest
      → Fit (messages ps)
      → length ps < f
      → Returns (λ _ n. Carried c t rest (joined ps) sm n) (process_client k f c t sm)
  unfolding sent refused
  upload kc ps cm cn sm got old bytes f run went held read filled joins partial fit fuel =
      let u = returned true cn run (send_packets-Uploads kc ps cm) in
      let same : got ≡ frames (messages ps) =
        append-cancel (sent cm.vars.socket_fd cm.log) got (frames (messages ps))
          (sym went ∙ u.bytes refl) in
      let whole_buf : old ++ bytes ≡ frames (messages ps) ++ rest =
        joins ∙ ap (λ z. z ++ rest) same in
      let all = frames (messages ps) ++ rest in
      rw
        (process_client-frames k c t rest (messages ps) old bytes f sm held read filled whole_buf
          fit partial (omega (arith, length-messages ps)))
        (mono
          (handle_messages-Carried ps (received k c t rest all bytes sm)
            (received_buffer k c t rest all bytes old sm held))
          λ _ o. elim [
            | whole left v ↦ whole left v
            | cut part behind w v bad ↦ cut part behind w v bad
          ])
