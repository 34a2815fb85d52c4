-- ===== src/Vpn/Framing.antt =====
-- The loop of handle_socket against a list of messages.
use over.Base.{
  some, ==→eq, subst, ℕ, zero, suc, ◌+◌, ◌-◌, ◌<◌, ◌≤◌, ◌^◌, ◌≡◌, refl, ap, ◌∙◌, inl, inr, Bool,
  true, false, pos, List, [], ◌∷◌, ◌++◌, ◌==◌, arith, ltb, length, drop, if◌then◌else◌, match_int,
  append_assoc, length-append, le→ltb, lt→ltb, Bool-cases,
}
use over.Kernel.{reads, Bytes, Kernel}
use over.Run.{
  and_then, Machine, pure, fault, get_vars, put_vars, ◌>>=◌, ◌>>◌, and_then-Keeps, Steady,
}
use over.Io
use over.Wire.{frame, header_size, read_header, header_length, header_bytes, u32_bytes, u32_at}
use over.Wire.RoundTrip.{length-frame, header_length-frame, header_type-frame}
use over.Server.Client.Framing.{Message, frames, Fit, IsPartial, no_header, no_body}
use over.Vpn.State.{
  Vars, Command, get_tun_fd, take_padded, slice, buffer_size, ip_reply_type, heartbeat_type,
  packet_recv_type,
}
use over.Vpn.Socket.{
  handle_socket, count_in, ip_reply, heartbeat_message, note_packet, packet_recv, handle_message,
  shift, socket_loop,
}
use over.Vpn.Memory.{append-front, take_padded-append, take_padded-front, shift-front}
use over.Vpn.Effects.{handle_message-Steady}

module _ (k : Kernel) where
  -- A packet, with the first five of the bytes behind it.
  unfoldable pub take_packet : Bytes → Bytes → Command Bool
  take_packet body behind = do
    s ← get_vars
    match_int (get_tun_fd s)
        (λ tun.
          if ltb buffer_size (header_size + (length body + header_size)) then (λ m. fault) else do
            r ← Io.write k tun (body ++ take_padded 5 behind)
            note_packet k (length body + header_size) r)
        (λ n. pure true)

  unfoldable pub take_message : Message → Bytes → Command Bool
  unfolding take_packet
  take_message x behind =
      if x.type == ip_reply_type
      then ip_reply k x.body
      else if x.type == heartbeat_type
      then heartbeat_message k
      else if x.type == packet_recv_type
      then take_packet x.body behind
      else pure false

  frame_body :
      (type : ℕ) (body behind : Bytes)
      → slice (frame type body ++ behind) header_size (length body + header_size - header_size)
        ≡ body
  unfolding slice frame header_bytes u32_bytes
  frame_body type body behind =
      let e : length body + header_size - header_size ≡ length body = omega arith in
      rw e (take_padded-front body behind)

  frame_tail :
      (type : ℕ) (body behind : Bytes)
      → slice (frame type body ++ behind) header_size (length body + header_size)
        ≡ body ++ take_padded 5 behind
  unfolding slice frame header_bytes u32_bytes
  frame_tail type body behind = take_padded-append body behind 5

  packet_recv-frame :
      (body behind : Bytes) (m : Machine Vars)
      → m.vars.memory ≡ frame packet_recv_type body ++ behind
      → packet_recv k (length body + header_size) m ≡ take_packet body behind m
  unfolding packet_recv take_packet
  packet_recv-frame body behind m at = rw (at, frame_tail packet_recv_type body behind) refl

  handle_message-frame :
      (x : Message) (behind : Bytes) (m : Machine Vars)
      → m.vars.memory ≡ frame x.type x.body ++ behind
      → handle_message k x.type (length x.body + header_size) m ≡ take_message x behind m
  unfolding handle_message take_message
  handle_message-frame x behind m at =
      let a : ltb (length x.body + header_size) header_size ≡ false = ground arith in
      elim (Bool-cases (x.type == ip_reply_type)) [
        | inl reply ↦ rw (reply, a, at, frame_body x.type x.body behind) refl
        | inr e ↦ elim (Bool-cases (x.type == heartbeat_type)) [
          | inl beat ↦ rw (e, beat) refl
          | inr f ↦ elim (Bool-cases (x.type == packet_recv_type)) [
            | inr other ↦ rw (e, f, other) refl
            | inl packet ↦
                let t : x.type ≡ packet_recv_type = ==→eq x.type packet_recv_type packet in
                rw (e, f, packet)
                  (packet_recv-frame x.body behind m
                    (subst (λ y. m.vars.memory ≡ frame y x.body ++ behind) t at))
          ]
        ]
      ]

  module _ (rest : Bytes) where
    -- The messages in order, each leaving the buffer when it has been handled. `stale` is what the
    -- array holds behind the bytes in use.
    unfoldable pub handle_messages : Bytes → List Message → Command Bool
    unfolding take_message
    handle_messages stale [] = pure true
    handle_messages stale (x ∷ xs) =
        let behind = frames xs ++ rest in
        let left = drop (length behind) (frame x.type x.body ++ (behind ++ stale)) in
        take_message x (behind ++ stale) >>= λ good.
        if good
        then (get_vars >>= λ s.
            put_vars (record s { memory = behind ++ left; nreads = length behind })
            >> handle_messages left xs)
        else pure false

    read_header-append :
        (bs more : Bytes) → header_size ≤ length bs → read_header (bs ++ more) ≡ read_header bs
    unfolding read_header u32_at
    read_header-append (a ∷ b ∷ c ∷ d ∷ e ∷ bs) more h = refl
    read_header-append [] more h = absurd (omega arith)
    read_header-append (a ∷ []) more h = absurd (omega arith)
    read_header-append (a ∷ b ∷ []) more h = absurd (omega arith)
    read_header-append (a ∷ b ∷ c ∷ []) more h = absurd (omega arith)
    read_header-append (a ∷ b ∷ c ∷ d ∷ []) more h = absurd (omega arith)

    partial_stops :
        (f : ℕ) (stale : Bytes) (m : Machine Vars)
        → IsPartial rest
        → m.vars.memory ≡ rest ++ stale
        → m.vars.nreads ≡ length rest
        → socket_loop k (suc f) m ≡ pure true m
    unfolding socket_loop
    partial_stops f stale m (no_header lt) at used = rw (used, lt→ltb _ _ lt) refl
    partial_stops f stale m (no_body len le h lt) at used =
        let e : header_length (read_header (rest ++ stale)) ≡ pos len =
          ap header_length (read_header-append rest stale le) ∙ h in
        rw (used, le→ltb _ _ le, at, e, lt→ltb _ _ lt) refl

    -- One whole message at the front.
    step :
        (x : Message) (behind : Bytes) (f : ℕ) (stale : Bytes) (m : Machine Vars)
        → m.vars.memory ≡ frame x.type x.body ++ (behind ++ stale)
        → m.vars.nreads ≡ length x.body + header_size + length behind
        → length x.body + header_size < 2 ^ 31
        → socket_loop k (suc f) m
          ≡ (handle_message k x.type (length x.body + header_size) >>= λ good.
                if good
                then (get_vars >>= λ s.
                    put_vars (shift (length x.body + header_size) s) >> socket_loop k f)
                else pure false)
              m
    unfolding socket_loop
    step x behind f stale m at used fits =
        let len = length x.body + header_size in
        let a : ltb (len + length behind) header_size ≡ false = ground arith in
        let b : ltb (len + length behind) len ≡ false = ground arith in
        rw
          (
            used,
            a,
            at,
            header_length-frame x.type x.body (behind ++ stale) fits,
            b,
            header_type-frame x.type x.body (behind ++ stale) fits,
          )
          refl

    -- Handling a message leaves the buffer as it was.
    abbrev Holds : Bytes → ℕ → Vars → Type 0
    Holds mem n s = (s.memory ≡ mem) × (s.nreads ≡ n)

    handle_message-Holds :
        (mem : Bytes) (n type len : ℕ) → Steady (Holds mem n) (handle_message k type len)
    unfolding count_in
    handle_message-Holds mem n type len =
        handle_message-Steady k (Holds mem n) (λ l s h. h) (λ t s h. h) type len

    pub socket_loop-frames :
        (xs : List Message) (f : ℕ) (stale : Bytes) (m : Machine Vars)
        → m.vars.memory ≡ (frames xs ++ rest) ++ stale
        → m.vars.nreads ≡ length (frames xs ++ rest)
        → Fit xs
        → IsPartial rest
        → length xs < f
        → socket_loop k f m ≡ handle_messages stale xs m
    unfolding handle_messages
    socket_loop-frames xs zero stale m at used fit partial more = absurd (omega arith)
    socket_loop-frames [] (suc f) stale m at used fit partial more =
        partial_stops f stale m partial at used
    socket_loop-frames (x ∷ xs) (suc f) stale m at used (fits, fit) partial more =
        let len = length x.body + header_size in
        let behind = frames xs ++ rest in
        let left = drop (length behind) (frame x.type x.body ++ (behind ++ stale)) in
        let after : Bool → Command Bool = λ good.
          if good
          then (get_vars >>= λ s.
              put_vars (record s { memory = behind ++ left; nreads = length behind })
              >> handle_messages left xs)
          else pure false in
        let shifted : Bool → Command Bool = λ good.
          if good
          then (get_vars >>= λ s. put_vars (shift len s) >> socket_loop k f)
          else pure false in
        step x behind f stale m at' used' fits
        ∙ and_then-Keeps (handle_message k x.type len m) shifted after
            (handle_message-Holds m.vars.memory m.vars.nreads x.type len m (refl, refl))
            (λ good n h. elim (Bool-cases good) [
              | inr no_more ↦ rw no_more refl
              | inl yes_more ↦
                  rw
                    (
                      yes_more,
                      shift-front (frame x.type x.body) behind stale len n.vars
                          (length-frame x.type x.body []) (h.0 ∙ at') (h.1 ∙ used'),
                    )
                    (socket_loop-frames xs f left _ refl refl fit partial (omega arith))
            ])
        ∙ ap (λ o. and_then o after) (handle_message-frame x (behind ++ stale) m at')
      where
        at' : m.vars.memory ≡ frame x.type x.body ++ ((frames xs ++ rest) ++ stale)
        at' =
            at
            ∙ ap (λ z. z ++ stale) (append_assoc (frame x.type x.body) (frames xs) rest)
            ∙ append_assoc (frame x.type x.body) (frames xs ++ rest) stale

        used' : m.vars.nreads ≡ length x.body + header_size + length (frames xs ++ rest)
        used' =
            used
            ∙ ap length (append_assoc (frame x.type x.body) (frames xs) rest)
            ∙ length-append (frame x.type x.body) (frames xs ++ rest)
            ∙ ap (λ z. z + length (frames xs ++ rest)) (length-frame x.type x.body [])

    -- When socket_buffer holds some bytes in use and stale ones behind them, and a read gives
    -- bytes that complete them to whole messages, each shorter than 2^31, and an unfinished one,
    -- then handle_socket is the handling of exactly those messages in order, each with its own
    -- type and body, the bytes behind it moved to the front after each, and the unfinished one
    -- left in use; one round for each message and one more are enough.
    pub handle_socket-frames :
        (xs : List Message) (f : ℕ) (old stale bytes : Bytes) (m : Machine Vars)
        → m.vars.memory ≡ old ++ stale
        → m.vars.nreads ≡ length old
        → k.read m.log m.vars.socket_fd (buffer_size - length old) ≡ some bytes
        → old ++ bytes ≡ frames xs ++ rest
        → Fit xs
        → IsPartial rest
        → length xs < f
        → handle_socket k f m
          ≡ handle_messages (drop (length bytes) stale) xs (record {
            vars = record (m.vars) {
              memory = (frames xs ++ rest) ++ drop (length bytes) stale;
              nreads = length (frames xs ++ rest);
            };
            log = reads m.vars.socket_fd (some bytes) ∷ m.log;
          })
    unfolding handle_socket
    handle_socket-frames xs f old stale bytes m at used got joined fit partial more =
        let got' : k.read m.log m.vars.socket_fd (buffer_size - m.vars.nreads) ≡ some bytes =
          ap (λ z. k.read m.log m.vars.socket_fd (buffer_size - z)) used ∙ got in
        let filled : Bytes → Vars =
          λ b. record (m.vars) { memory = b ++ drop (length bytes) stale; nreads = length b } in
        rw got' (
          ap
            (λ v.
              socket_loop k f
                (record { vars = v; log = reads m.vars.socket_fd (some bytes) ∷ m.log }))
            (append-front old stale bytes m.vars at used ∙ ap filled joined)
          ∙ socket_loop-frames xs f (drop (length bytes) stale) _ refl refl fit partial more)
