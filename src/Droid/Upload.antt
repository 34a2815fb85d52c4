-- ===== src/Droid/Upload.antt =====
-- What rawToOver6 makes of the bytes that are read from the tun device.
pub mod Turns
use over.Base.{
  ℕ, zero, suc, ◌+◌, ◌-◌, ◌<◌, ◌≤◌, ◌≡◌, ◌≢◌, refl, sym, ap, ◌∙◌, true, false, Option, none, some,
  List, [], ◌∷◌, ◌++◌, arith, ltb, ◌==◌, if◌then◌else◌, length, take, drop, inl, inr, Bool-cases,
  append_assoc, append-nil, length-append, length-drop, drop-drop, take-append-drop,
  take-append-take, take-length, drop-le, take-append-le, length-take, ne_nil_of_length, ==-refl,
  le→ltb,
}
use over.Kernel.{Fd, Bytes, Kernel, Log, sent, taken, writes, reads}
use over.Run.{Machine, Returns, returns, bind, mono}
use over.Io
use over.Wire.{frame, header_bytes, header_size, u32_bytes}
use over.Droid.State.{Vars, type_reply, set_ip}
use over.Droid.Stream.{move_up, raw_to_over6}

-- A descriptor with room: a header is taken whole, and of any block at least a byte is.
pub record Flowing (k : Kernel) (fd : Fd) : Type 0 where
  pub whole : (l : Log) (len type : ℕ) → k.write l fd (header_bytes len type) ≡ some header_size
  pub part :
      (l : Log) (bytes : Bytes)
      → bytes ≢ []
      → (n : ℕ) × (k.write l fd bytes ≡ some n) × (0 < n) × (n ≤ length bytes)

abbrev pub frames : List Bytes → Bytes
frames [] = []
frames (b ∷ bs) = frame type_reply b ++ frames bs

abbrev pub joined : List Bytes → Bytes
joined [] = []
joined (b ∷ bs) = b ++ joined bs

-- With the rest of the message that is being sent, the stream is whole messages, and their bodies
-- with the bytes that no message has yet are what came from the tun device.
pub record Framed (fd tun : Fd) (before base : Bytes) (m : Machine Vars) : Type 0 where
  pub client : m.vars.over6_fd ≡ fd
  pub device : m.vars.tun_dev_fd ≡ tun
  pub bodies : List Bytes
  pub stream : sent fd m.log ++ take m.vars.remain m.vars.ip_buffer ≡ before ++ frames bodies
  pub content : base ++ (joined bodies ++ drop m.vars.remain m.vars.ip_buffer) ≡ taken tun m.log
  pub within : m.vars.remain ≤ length m.vars.ip_buffer

frames-snoc :
    (bs : List Bytes) (b : Bytes) → frames (bs ++ b ∷ []) ≡ frames bs ++ frame type_reply b
frames-snoc [] b = append-nil _
frames-snoc (x ∷ xs) b =
    ap (◌++◌ (frame type_reply x)) (frames-snoc xs b)
    ∙ sym (append_assoc (frame type_reply x) (frames xs) (frame type_reply b))

joined-snoc : (bs : List Bytes) (b : Bytes) → joined (bs ++ b ∷ []) ≡ joined bs ++ b
joined-snoc [] b = append-nil b
joined-snoc (x ∷ xs) b = ap (◌++◌ x) (joined-snoc xs b) ∙ sym (append_assoc x (joined xs) b)

take-take : (n r : ℕ) (xs : Bytes) → n ≤ r → r ≤ length xs → take n (take r xs) ≡ take n xs
take-take n r xs h le =
    sym (take-append-le n (take r xs) (drop r xs) (omega (arith, length-take r xs)))
    ∙ ap (take n) (take-append-drop r xs)

take-header : (len type : ℕ) → take header_size (header_bytes len type) ≡ header_bytes len type
unfolding header_bytes u32_bytes
take-header len type = refl

module _ (k : Kernel) (fd tun : Fd) (flowing : Flowing k fd) (before base : Bytes) where
  -- A part of what is due has been written.
  advance :
      (m n : Machine Vars) (bodies : List Bytes) (old buffer : Bytes) (due count : ℕ)
      → count ≤ due
      → due ≤ length buffer
      → old ++ take due buffer ≡ before ++ frames bodies
      → base ++ (joined bodies ++ drop due buffer) ≡ taken tun m.log
      → (m.vars.over6_fd ≡ fd) × (m.vars.tun_dev_fd ≡ tun)
      → taken tun n.log ≡ taken tun m.log
      → n.vars ≡ record (m.vars) { ip_buffer = drop count buffer; remain = due - count }
      → sent fd n.log ≡ old ++ take count (take due buffer)
      → Framed fd tun before base n
  advance m n bodies old buffer due count le fits stream content ends read set went =
      let total : count + (due - count) ≡ due = omega arith in
      let used : n.vars.ip_buffer ≡ drop count buffer = ap (λ v. v.ip_buffer) set in
      let left : n.vars.remain ≡ due - count = ap (λ v. v.remain) set in
      record {
        client = ap (λ v. v.over6_fd) set ∙ ends.0;
        device = ap (λ v. v.tun_dev_fd) set ∙ ends.1;
        bodies = bodies;
        stream =
            rw (went, used, left)
              (append_assoc old (take count (take due buffer))
                  (take (due - count) (drop count buffer))
                ∙ ap (◌++◌ old) (
                    ap (λ z. z ++ take (due - count) (drop count buffer))
                      (take-take count due buffer le fits)
                    ∙ take-append-take count (due - count) buffer
                    ∙ ap (λ z. take z buffer) total)
                ∙ stream);
        content =
            rw (used, left)
              (ap (λ z. base ++ (joined bodies ++ z))
                  (sym (drop-drop count (due - count) buffer) ∙ ap (λ z. drop z buffer) total)
                ∙ content
                ∙ sym read);
        within = rw (used, left) (omega (arith, length-drop count buffer));
      }

  -- A message is begun with all that is in the buffer.
  start_stream :
      (buffer : Bytes) (bodies : List Bytes) (old : Bytes)
      → old ≡ before ++ frames bodies
      → (old ++ header_bytes (length buffer + header_size) type_reply)
          ++ take (length buffer) buffer
        ≡ before ++ frames (bodies ++ buffer ∷ [])
  unfolding frame
  start_stream buffer bodies old e =
      let head = header_bytes (length buffer + header_size) type_reply in
      ap (λ z. (old ++ head) ++ z) (take-length buffer)
      ∙ append_assoc old head buffer
      ∙ ap (λ z. z ++ (head ++ buffer)) e
      ∙ append_assoc before (frames bodies) (head ++ buffer)
      ∙ ap (◌++◌ before) (sym (frames-snoc bodies buffer))

  start_content :
      (buffer : Bytes) (bodies : List Bytes)
      → joined (bodies ++ buffer ∷ []) ++ drop (length buffer) buffer ≡ joined bodies ++ buffer
  start_content buffer bodies =
      rw (drop-le (length buffer) buffer (omega arith)) (append-nil _ ∙ joined-snoc bodies buffer)

  pub raw_to_over6-Framed :
      (m : Machine Vars)
      → Framed fd tun before base m
      → Returns (λ _ n. Framed fd tun before base n) (raw_to_over6 k fd m)
  unfolding raw_to_over6 move_up set_ip sent taken
  raw_to_over6-Framed m h = elim (Bool-cases (length m.vars.ip_buffer == 0)) [
    | inl nothing ↦ rw nothing (returns h)
    | inr some_data ↦ elim (Bool-cases (m.vars.remain == 0)) [
      | inl fresh ↦
          let none_due : m.vars.remain ≡ 0 = ground arith in
          let head = header_bytes (length m.vars.ip_buffer + header_size) type_reply in
          let (n, e, _, le) =
            flowing.part (writes fd head (some header_size) ∷ m.log) m.vars.ip_buffer
              (ne_nil_of_length _ (ground arith)) in
          let room : ltb (length m.vars.ip_buffer) n ≡ false = le→ltb _ _ le in
          rw
            (
              some_data,
              fresh,
              flowing.whole m.log (length m.vars.ip_buffer + header_size) type_reply,
              e,
              room,
            )
            (returns (
              advance m _ (h.bodies ++ m.vars.ip_buffer ∷ []) (sent fd m.log ++ head)
                m.vars.ip_buffer (length m.vars.ip_buffer) n le (omega arith)
                (start_stream m.vars.ip_buffer h.bodies (sent fd m.log) (
                  sym (append-nil _)
                  ∙ ap (λ r. sent fd m.log ++ take r m.vars.ip_buffer) (sym none_due)
                  ∙ h.stream))
                (ap (◌++◌ base) (
                    start_content m.vars.ip_buffer h.bodies
                    ∙ ap (λ r. joined h.bodies ++ drop r m.vars.ip_buffer) (sym none_due))
                  ∙ h.content)
                (h.client, h.device) refl refl
                (rw
                  (
                    ==-refl fd,
                    take-header (length m.vars.ip_buffer + header_size) type_reply,
                    take-length m.vars.ip_buffer,
                  )
                  refl)))
      | inr going ↦
          let due = take m.vars.remain m.vars.ip_buffer in
          let size : length due ≡ m.vars.remain =
            omega (arith, length-take m.vars.remain m.vars.ip_buffer, h.within) in
          let (n, e, _, le) = flowing.part m.log due (ne_nil_of_length _ (ground (arith, size))) in
          let room : ltb (length m.vars.ip_buffer) n ≡ false =
            le→ltb _ _ (omega (arith, h.within)) in
          rw (some_data, going, e, room)
            (returns (
              advance m _ h.bodies (sent fd m.log) m.vars.ip_buffer m.vars.remain n (omega arith)
                h.within h.stream h.content (h.client, h.device) refl refl (rw (==-refl fd) refl)))
    ]
  ]
