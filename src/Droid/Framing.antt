-- ===== src/Droid/Framing.antt =====
-- The loop of over6Handle against a list of messages.
use over.Base.{
  ℕ, zero, suc, ◌+◌, ◌<◌, ◌^◌, ◌≡◌, ◌⊎◌, inl, inr, refl, ap, ◌∙◌, false, List, [], ◌∷◌, ◌++◌, arith,
  ◌%◌, ltb, ◌==◌, if◌then◌else◌, length, length-append, append_assoc, lt→ltb, le→ltb, Bool-cases,
}
use over.Kernel.{Fd, Bytes, Kernel}
use over.Run.{Machine, pure, and_then, and_then-ext, ◌>>=◌, ◌>>◌}
use over.Io
use over.Wire.{frame, header_size, header_bytes, byte_at, u32_at, u32_bytes}
use over.Wire.RoundTrip.{length-frame, take-drop-frame, drop-frame, u32_at-u32_bytes}
use over.Server.Client.Framing.{Message, frames}
use over.Droid.State.{Vars, Command, type_heart, type_request, type_ip_request, set_packets}
use over.Droid.Messages.{type_of, ip_request, send_raw, handle_packet, over6_handle}

-- Each message's length is a uint32_t.
abbrev pub Fit32 : List Message → Type 0
Fit32 [] = Unit {0}
Fit32 (x ∷ xs) = (length x.body + header_size < 2 ^ 32) × Fit32 xs

-- Bytes that are no whole message yet.
abbrev pub IsPartial : Bytes → Type 0
IsPartial rest = (length rest < 4) ⊎ (length rest < u32_at rest 0)

length_word :
    (type : ℕ) (body rest : Bytes)
    → length body + header_size < 2 ^ 32
    → u32_at (frame type body ++ rest) 0 ≡ length body + header_size
unfolding frame header_bytes u32_bytes
length_word type body rest h = word (length body + header_size) h
  where
    word : (n : ℕ) → n < 2 ^ 32 → u32_at (u32_bytes (n % 2 ^ 32) ++ (type ∷ body ++ rest)) 0 ≡ n
    word n lt = u32_at-u32_bytes (n % 2 ^ 32) (type ∷ body ++ rest) (omega arith) ∙ omega arith

type_byte :
    (type : ℕ) (body rest tail : Bytes) → byte_at ((frame type body ++ rest) ++ tail) 4 ≡ type
unfolding frame header_bytes u32_bytes
type_byte type body rest tail = refl

module _ (k : Kernel) (fd : Fd) where
  -- What over6Handle means to do with a message; what a write does not take is lost.
  unfoldable pub handle_message : ℕ → Bytes → Command (Unit {0})
  handle_message type body =
      if type == type_heart
      then pure tt
      else if type == type_request
      then (do _ ← Io.write k fd body; pure tt)
      else if type == type_ip_request
      then ip_request k
      else pure tt

  handle_packet-frame :
      (type : ℕ) (body rest : Bytes) (m : Machine Vars)
      → handle_packet k fd type (length body + header_size) (frame type body ++ rest) m
        ≡ handle_message type body m
  unfolding handle_packet handle_message send_raw
  handle_packet-frame type body rest m =
      let a : ltb (length body + header_size) header_size ≡ false = ground arith in
      rw (a, take-drop-frame type body rest) refl

  module _ (rest : Bytes) where
    unfoldable pub handle_messages : List Message → Command (Unit {0})
    unfolding handle_message
    handle_messages [] = pure tt
    handle_messages (x ∷ xs) =
        handle_message x.type x.body >> (set_packets (frames xs ++ rest) >> handle_messages xs)

    partial_stops :
        (f : ℕ) (m : Machine Vars)
        → IsPartial rest
        → m.vars.over6_packet_buffer ≡ rest
        → over6_handle k (suc f) fd m ≡ pure tt m
    unfolding over6_handle
    partial_stops f m (inl few) at = rw (at, lt→ltb _ _ few) refl
    partial_stops f m (inr cut) at = elim (Bool-cases (ltb (length rest) 4)) [
      | inl few ↦ rw (at, few) refl
      | inr enough ↦ rw (at, enough, lt→ltb _ _ cut) refl
    ]

    -- One whole message at the front of the buffer.
    step :
        (x : Message) (more : Bytes) (f : ℕ) (m : Machine Vars)
        → m.vars.over6_packet_buffer ≡ frame x.type x.body ++ more
        → length x.body + header_size < 2 ^ 32
        → over6_handle k (suc f) fd m
          ≡ (handle_packet k fd x.type (length x.body + header_size) (frame x.type x.body ++ more)
                >> (set_packets more >> over6_handle k f fd))
              m
    unfolding over6_handle type_of
    step x more f m at fits =
        let size = length-append (frame x.type x.body) more in
        let own = length-frame x.type x.body more in
        let a : ltb (length (frame x.type x.body ++ more)) 4 ≡ false =
          le→ltb _ _ (omega (arith, size, own)) in
        let b : ltb (length (frame x.type x.body ++ more)) (length x.body + header_size) ≡ false =
          le→ltb _ _ (omega (arith, size, own)) in
        rw
          (
            at,
            a,
            length_word x.type x.body more fits,
            b,
            type_byte x.type x.body more (k.heap_tail m.log),
            drop-frame x.type x.body more,
          )
          refl

    -- The loop of over6Handle, over a buffer that holds whole messages, each shorter than 2^32
    -- bytes, followed by an unfinished one, is the handling of exactly those messages in order,
    -- each with its own type and body, with the unfinished bytes left in the buffer; one round
    -- for each message and one more are enough.
    pub over6_handle-frames :
        (ms : List Message) (f : ℕ) (m : Machine Vars)
        → Fit32 ms
        → IsPartial rest
        → length ms < f
        → m.vars.over6_packet_buffer ≡ frames ms ++ rest
        → over6_handle k f fd m ≡ handle_messages ms m
    unfolding handle_messages set_packets
    over6_handle-frames ms zero m fit partial lt at = absurd (omega arith)
    over6_handle-frames [] (suc f) m fit partial lt at = partial_stops f m partial at
    over6_handle-frames (x ∷ xs) (suc f) m fit partial lt at =
        let more = frames xs ++ rest in
        let after : Unit {0} → Command (Unit {0}) = λ _. set_packets more >> over6_handle k f fd in
        step x more f m (at ∙ append_assoc (frame x.type x.body) (frames xs) rest) fit.0
        ∙ ap (λ o. and_then o after) (handle_packet-frame x.type x.body more m)
        ∙ and_then-ext (handle_message x.type x.body m) _ _
            (λ _ n. over6_handle-frames xs f _ fit.1 partial (omega arith) refl)
