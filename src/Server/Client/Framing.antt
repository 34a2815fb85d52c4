-- ===== src/Server/Client/Framing.antt =====
-- The loop of process_client against a list of messages: what arrives as bytes is handled as the
-- messages that it encodes, whatever the reads have cut it into.
use over.Base.{
  ℕ, zero, suc, ◌+◌, ◌<◌, ◌≤◌, ◌^◌, ◌≡◌, inl, inr, refl, ap, ◌∙◌, Bool, true, false, some, List, [],
  ◌∷◌, ◌++◌, arith, ltb, if◌then◌else◌, length, get_elem?, length-append, append_assoc, pos,
  Bool-cases, ltb→lt, lt→ltb, le→ltb, get_elem?-set_self, get_elem?-lt, set, ◌-◌, ◌==◌, ◌≢◌,
}
use over.Kernel.{Fd, Bytes, Kernel, reads}
use over.Run.{Machine, pure, and_then-ext, ◌>>=◌, ◌>>◌}
use over.Wire.{frame, header_size, read_header, header_length}
use over.Wire.RoundTrip.{
  length-frame, header_length-frame, header_type-frame, take-drop-frame, drop-frame,
}
use over.Server.State.{Vars, Command, set_buf, buf_at, buf_size}
use over.Server.Client.{dispatch, client_loop, process_client}

pub record Message : Type 0 where
  pub type : ℕ
  pub body : Bytes

abbrev pub frames : List Message → Bytes
frames [] = []
frames (x ∷ xs) = frame x.type x.body ++ frames xs

-- Each message's length is an `int`.
abbrev pub Fit : List Message → Type 0
Fit [] = Unit {0}
Fit (x ∷ xs) = (length x.body + header_size < 2 ^ 31) × Fit xs

-- Bytes that are no whole message yet.
pub data IsPartial (rest : Bytes) : Type 0 where
  no_header : length rest < header_size → IsPartial rest
  no_body :
      (len : ℕ)
      → header_size ≤ length rest
      → header_length (read_header rest) ≡ pos len
      → length rest < len
      → IsPartial rest

module _ (k : Kernel) (c t : Fd) (rest : Bytes) where
  -- What process_client means to do with messages that have arrived, and `rest` behind them: handle
  -- them in order, each leaving the buffer when it has been handled, until one ends the handler.
  unfoldable pub handle_messages : List Message → Command (Unit {0})
  handle_messages [] = pure tt
  handle_messages (x ∷ xs) = do
    more ← dispatch k c t x.type x.body
    if more then (do set_buf c (frames xs ++ rest); handle_messages xs) else pure tt

  pub partial_stops :
      (f : ℕ) (m : Machine Vars)
      → IsPartial rest
      → get_elem? m.vars.bufs c ≡ some rest
      → client_loop k (suc f) c t m ≡ pure tt m
  unfolding client_loop
  partial_stops f m (no_header lt) e = rw (e, lt→ltb _ _ lt)
  partial_stops f m (no_body len le h lt) e = rw (e, le→ltb _ _ le, h, lt→ltb _ _ lt)

  -- One whole message at the front of the buffer.
  pub message_step :
      (f : ℕ) (m : Machine Vars) (x : Message) (more_bytes : Bytes)
      → length x.body + header_size < 2 ^ 31
      → get_elem? m.vars.bufs c ≡ some (frame x.type x.body ++ more_bytes)
      → client_loop k (suc f) c t m
        ≡ (dispatch k c t x.type x.body >>= λ more.
              if more then (do set_buf c more_bytes; client_loop k f c t) else pure tt)
            m
  unfolding client_loop
  message_step f m x more_bytes h e =
      let long : ltb (length (frame x.type x.body ++ more_bytes)) header_size ≡ false = le→ltb _ _ (
        omega (
          arith,
          length-append (frame x.type x.body) more_bytes,
          length-frame x.type x.body more_bytes,
        )) in
      let whole : ltb (length (frame x.type x.body ++ more_bytes)) (length x.body + header_size)
          ≡ false =
        le→ltb _ _ (
          omega (
            arith,
            length-append (frame x.type x.body) more_bytes,
            length-frame x.type x.body more_bytes,
          )) in
      rw (
        e,
        long,
        header_length-frame x.type x.body more_bytes h,
        whole,
        header_type-frame x.type x.body more_bytes h,
        take-drop-frame x.type x.body more_bytes,
        drop-frame x.type x.body more_bytes,
      )

  -- After the buffer has been written, two commands that agree on such machines agree.
  set_buf-then :
      (b : Bytes) (d d' : Command (Unit {0})) (n : Machine Vars)
      → ((n' : Machine Vars) → get_elem? n'.vars.bufs c ≡ some b → d n' ≡ d' n')
      → (set_buf c b >> d) n ≡ (set_buf c b >> d') n
  unfolding set_buf
  set_buf-then b d d' n same = elim (Bool-cases (ltb c (length n.vars.bufs))) [
    | inl lt ↦ rw lt (same _ (get_elem?-set_self n.vars.bufs c b (ltb→lt _ _ lt)))
    | inr out ↦ rw out
  ]

  -- The loop of process_client, over a buffer that holds whole messages followed by an
  -- unfinished one, is the handling of exactly those messages in order, each with its own type
  -- and body, with the unfinished bytes left in the buffer; one round for each message and one
  -- more are enough.
  pub client_loop-frames :
      (ms : List Message) (f : ℕ) (m : Machine Vars)
      → Fit ms
      → IsPartial rest
      → length ms < f
      → get_elem? m.vars.bufs c ≡ some (frames ms ++ rest)
      → client_loop k f c t m ≡ handle_messages ms m
  unfolding handle_messages
  client_loop-frames ms zero m fit p lt e = absurd (omega arith)
  client_loop-frames [] (suc f) m fit p lt e = partial_stops f m p e
  client_loop-frames (x ∷ xs) (suc f) m fit p lt e =
      message_step f m x (frames xs ++ rest) fit.0
        (e ∙ ap some (append_assoc (frame x.type x.body) (frames xs) rest))
      ∙ and_then-ext (dispatch k c t x.type x.body m) _ _
          (next (λ n e'. client_loop-frames xs f n fit.1 p (omega arith) e'))
    where
      next :
          ((n : Machine Vars)
            → get_elem? n.vars.bufs c ≡ some (frames xs ++ rest)
            → client_loop k f c t n ≡ handle_messages xs n)
          → (more : Bool) (n : Machine Vars)
          → (if more then (do set_buf c (frames xs ++ rest); client_loop k f c t) else pure tt) n
            ≡ (if more then (do set_buf c (frames xs ++ rest); handle_messages xs) else pure tt) n
      next ih false n = refl
      next ih true n =
          set_buf-then (frames xs ++ rest) (client_loop k f c t) (handle_messages xs) n ih

  -- The machine after a read, with these bytes in the buffer.
  abbrev pub received : Bytes → Bytes → Machine Vars → Machine Vars
  received all bytes m = record {
    vars = record (m.vars) { bufs = set m.vars.bufs c all };
    log = reads c (some bytes) ∷ m.log;
  }

  pub received_buffer :
      (all bytes old : Bytes) (m : Machine Vars)
      → get_elem? m.vars.bufs c ≡ some old
      → get_elem? (received all bytes m).vars.bufs c ≡ some all
  received_buffer all bytes old m held =
      get_elem?-set_self m.vars.bufs c all (get_elem?-lt m.vars.bufs c held)

  -- A read that completes whole messages, with the bytes that were there before.
  pub process_client-frames :
      (ms : List Message) (old bytes : Bytes) (f : ℕ) (m : Machine Vars)
      → get_elem? m.vars.bufs c ≡ some old
      → k.read m.log c (buf_size - length old) ≡ some bytes
      → bytes ≢ []
      → old ++ bytes ≡ frames ms ++ rest
      → Fit ms
      → IsPartial rest
      → length ms < f
      → process_client k f c t m ≡ handle_messages ms (received (frames ms ++ rest) bytes m)
  unfolding process_client buf_at set_buf
  process_client-frames ms old bytes f m held read filled joins fit partial fuel =
      rw
        (
          held,
          read,
          not_empty bytes filled,
          lt→ltb c (length m.vars.bufs) (get_elem?-lt m.vars.bufs c held),
          joins,
        )
        (client_loop-frames ms f (received (frames ms ++ rest) bytes m) fit partial fuel
          (received_buffer (frames ms ++ rest) bytes old m held))
    where
      not_empty : (bs : Bytes) → bs ≢ [] → (length bs == 0) ≡ false
      not_empty [] h = absurd (h refl)
      not_empty (b ∷ bs) h = ground arith
