-- ===== src/Relay/Queue/Turns.antt =====
-- Packets, replies and heartbeats to a client, in any order.
use over.Base.{
  ℕ, ◌+◌, ◌-◌, ◌≤◌, ◌≡◌, refl, sym, ap, ◌∙◌, inl, inr, Bool, true, false, some, List, [], ◌∷◌, ◌++◌,
  arith, ltb, if◌then◌else◌, length, get_elem?, get_elem?-modify_self, append_assoc, append-nil,
  take-length,
}
use over.Kernel.{Fd, Bytes, Kernel, WritesWithin, sent, refused}
use over.Run.{Out, and_then, Machine, Returns, returns, bind, pure, ◌>>=◌, ◌>>◌}
use over.Wire.{header_size}
use over.Relay.State.{Vars, Command, ClientConnection, client_at, change_client, push, pop}
use over.Relay.Connection.{data_size, queue_message, push_to_write_queue, send_message}
use over.Relay.Reader.{write_round}
use over.Relay.Queue.{
  Kind, packet, reply, heartbeat, wires, packets, packets-snoc, message, messages, Fit, Holds,
  Broken, Passed, send, send-Passed, Small,
}

-- What happens next: a packet for the client is pushed, writeThread makes a pass, readThread sends a
-- reply, or keepLiveThread a heartbeat.
pub data Turn : Type 0 where
  arrival : Bytes → Turn
  write : Turn
  answer : Bytes → Turn
  beat : Turn

abbrev pub arrivals : List Turn → List Bytes
arrivals [] = []
arrivals (arrival p ∷ ts) = p ∷ arrivals ts
arrivals (write ∷ ts) = arrivals ts
arrivals (answer text ∷ ts) = arrivals ts
arrivals (beat ∷ ts) = arrivals ts

abbrev pub AllSmall : List Turn → Type 0
AllSmall [] = Unit {0}
AllSmall (arrival p ∷ ts) = (length p ≤ data_size) × AllSmall ts
AllSmall (write ∷ ts) = AllSmall ts
AllSmall (answer text ∷ ts) = (length text ≤ data_size) × AllSmall ts
AllSmall (beat ∷ ts) = AllSmall ts

-- Until a message could not be sent.
unfoldable pub run_turns : Kernel → ℕ → List Turn → Command Bool
run_turns k client [] = pure true
run_turns k client (arrival p ∷ ts) =
    push_to_write_queue client (length p + header_size) 103 p >> run_turns k client ts
run_turns k client (write ∷ ts) =
    write_round k client >>= λ more. if more then run_turns k client ts else pure false
run_turns k client (answer text ∷ ts) =
    send_message k client 101 (length text + header_size) text >>= λ good.
    if good then run_turns k client ts else pure false
run_turns k client (beat ∷ ts) =
    send_message k client 104 0 [] >>= λ good. if good then run_turns k client ts else pure false

Broken-append :
    (fd : Fd) (start : ℕ) (base : Bytes) (all more : List Bytes) (m : Machine Vars)
    → Broken fd start base all m
    → Broken fd start base (all ++ more) m
Broken-append fd start base all more m b = record {
  out = b.out;
  last = b.last;
  part = b.part;
  behind = b.behind;
  whole = b.whole;
  stream = b.stream;
  later = b.later ++ more;
  order =
      sym (append_assoc (packets (b.out ++ b.last ∷ [])) b.later more)
      ∙ ap (λ x. x ++ more) b.order;
  failed = b.failed;
}

messages-snoc :
    (ps : List Bytes) (p : Bytes) → messages ps ++ message p ∷ [] ≡ messages (ps ++ p ∷ [])
messages-snoc [] p = refl
messages-snoc (q ∷ ps) p = ap (◌∷◌ (message q)) (messages-snoc ps p)

Fit-snoc : (ps : List Bytes) (p : Bytes) → Fit ps → length p ≤ data_size → Fit (ps ++ p ∷ [])
Fit-snoc [] p f h = (h, tt)
Fit-snoc (q ∷ ps) p f h = (f.0, Fit-snoc ps p f.1 h)

module _ (k : Kernel) (fits : WritesWithin k) (client : ℕ) (fd : Fd) (start : ℕ)
    (base : Bytes) where
  push-Holds :
      (p : Bytes) (all : List Bytes) (m : Machine Vars)
      → length p ≤ data_size
      → Holds client fd start base all m
      → Returns
          (λ _ n. Holds client fd start base (all ++ p ∷ []) n)
          (push_to_write_queue client (length p + header_size) 103 p m)
  unfolding push_to_write_queue change_client queue_message push
  push-Holds p all m small h =
      let a : ltb (data_size + header_size) (length p + header_size) ≡ false = ground arith in
      let b : length p + header_size - header_size ≡ length p = omega arith in
      rw (a, b, take-length p)
        (returns (record {
          connection = queue_message (message p) h.connection;
          at = get_elem?-modify_self (queue_message (message p)) client m.vars.clients h.at;
          socket = h.socket;
          waiting = h.waiting ++ p ∷ [];
          queue = ap (λ q. q ++ message p ∷ []) h.queue ∙ messages-snoc h.waiting p;
          fit = Fit-snoc h.waiting p h.fit small;
          out = h.out;
          stream = h.stream;
          order =
              sym (append_assoc (packets h.out) h.waiting (p ∷ [])) ∙ ap (λ x. x ++ p ∷ []) h.order;
          unbroken = h.unbroken;
        }))

  write-Passed :
      (all : List Bytes) (m : Machine Vars) (c : ClientConnection) (out : List Kind)
      (waiting : List Bytes)
      → get_elem? m.vars.clients client ≡ some c
      → c.socket_fd ≡ fd
      → c.write_queue ≡ messages waiting
      → Fit waiting
      → sent fd m.log ≡ base ++ wires out
      → packets out ++ waiting ≡ all
      → refused fd m.log ≡ start
      → Returns (Passed client fd start base all) (write_round k client m)
  unfolding write_round client_at change_client pop Passed
  write-Passed all m c out [] at own queue fit stream order before =
      rw (at, queue)
        (returns (
          inl (
            refl,
            record {
              connection = c;
              at = at;
              socket = own;
              waiting = [];
              queue = queue;
              fit = fit;
              out = out;
              stream = stream;
              order = order;
              unbroken = before;
            },
          )))
  write-Passed all m c out (p ∷ waiting) at own queue fit stream order before =
      let shorter = λ (d : ClientConnection). record d { write_queue = messages waiting } in
      let moved : packets (out ++ packet p ∷ []) ++ waiting ≡ all =
        ap (λ x. x ++ waiting) (packets-snoc out (packet p))
        ∙ append_assoc (packets out) (p ∷ []) waiting
        ∙ order in
      rw (at, queue)
        (send-Passed k fits client fd (packet p) start base out waiting all (shorter c) _
          (get_elem?-modify_self shorter client m.vars.clients at) own refl fit.1 fit.0 stream moved
          before)

  -- A message without a packet.
  direct-Passed :
      (x : Kind) (all : List Bytes) (m : Machine Vars)
      → packets (x ∷ []) ≡ []
      → Small x
      → Holds client fd start base all m
      → Returns (Passed client fd start base all) (send k client x m)
  direct-Passed x all m bare small h =
      let order : packets (h.out ++ x ∷ []) ++ h.waiting ≡ all =
        ap (λ y. y ++ h.waiting)
          (packets-snoc h.out x ∙ ap (◌++◌ (packets h.out)) bare ∙ append-nil (packets h.out))
        ∙ h.order in
      send-Passed k fits client fd x start base h.out h.waiting all h.connection m h.at h.socket
        h.queue h.fit small h.stream order h.unbroken

  -- The turns behind one that went well.
  goes_on :
      (all more : List Bytes) (o : Out Vars Bool) (next : Command Bool)
      → Returns (Passed client fd start base all) o
      → ((n : Machine Vars)
          → Holds client fd start base all n
          → Returns (Passed client fd start base (all ++ more)) (next n))
      → Returns
          (Passed client fd start base (all ++ more))
          (and_then o λ good. if good then next else pure false)
  unfolding Passed
  goes_on all more o next done go = bind done λ r n d. elim d [
    | inl (e, h) ↦ rw e (go n h)
    | inr (e, b) ↦ rw e (returns (inr (refl, Broken-append fd start base all more n b)))
  ]

  -- If write fails or takes between one byte and the whole of a block that is not empty, what a
  -- client's socket has taken is a given start and whole messages behind it, whose packets, with
  -- those of the messages in the client's queue, each of at most 4096 bytes, are a given list,
  -- then, in whatever order packets are pushed for it, writeThread makes its passes, replies to
  -- requests are sent and heartbeats are sent, each body of at most 4096 bytes, until one is not
  -- sent, the run returns: either what the socket has taken is the start and whole messages
  -- behind it, whose packets, with those in the queue, are that list and the packets pushed, in
  -- order, and no write to the socket has failed meanwhile, or one has, the run has stopped
  -- within a message behind whole ones, and the packets of them all are the first of that list
  -- and those pushed.
  pub run_turns-Passed :
      (ts : List Turn) (all : List Bytes) (m : Machine Vars)
      → AllSmall ts
      → Holds client fd start base all m
      → Returns (Passed client fd start base (all ++ arrivals ts)) (run_turns k client ts m)
  unfolding run_turns Passed
  run_turns-Passed [] all m small h = rw (append-nil all) (returns (inl (refl, h)))
  run_turns-Passed (arrival p ∷ ts) all m small h = bind (push-Holds p all m small.0 h) λ _ n g.
      rw (← append_assoc all (p ∷ []) (arrivals ts))
        (run_turns-Passed ts (all ++ p ∷ []) n small.1 g)
  run_turns-Passed (write ∷ ts) all m small h =
      goes_on all (arrivals ts) (write_round k client m) (run_turns k client ts)
        (write-Passed all m h.connection h.out h.waiting h.at h.socket h.queue h.fit h.stream
          h.order h.unbroken)
        λ n g. run_turns-Passed ts all n small g
  run_turns-Passed (answer text ∷ ts) all m small h =
      goes_on all (arrivals ts) (send k client (reply text) m) (run_turns k client ts)
        (direct-Passed (reply text) all m refl small.0 h) λ n g. run_turns-Passed ts all n small.1 g
  run_turns-Passed (beat ∷ ts) all m small h =
      goes_on all (arrivals ts) (send k client heartbeat m) (run_turns k client ts)
        (direct-Passed heartbeat all m refl tt h) λ n g. run_turns-Passed ts all n small g
