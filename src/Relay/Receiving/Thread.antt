-- ===== src/Relay/Receiving/Thread.antt =====
-- readThread against the messages of a client that has its address.
use over.Base.{
  some, ℕ, suc, ◌+◌, ◌<◌, ◌≡◌, refl, sym, ap, ◌∙◌, List, [], ◌∷◌, ◌++◌, arith, length, append_assoc,
  append-nil,
}
use over.Kernel.{Fd, Bytes, Kernel, Feeds, taken}
use over.Run.{Machine, Out, ok, ran}
use over.Wire.{header_size}
use over.Relay.State.{Vars}
use over.Relay.Connection.{data_size}
use over.Relay.Reader.{read_round, read_thread}
use over.Relay.Receiving.{
  length-head, In, wire, Small, array, queued, head, Live, After, read_round-After,
}

abbrev pub wires : List In → Bytes
wires [] = []
wires (x ∷ xs) = wire x ++ wires xs

abbrev pub AllSmall : List In → Type 0
AllSmall [] = Unit {0}
AllSmall (x ∷ xs) = Small x × AllSmall xs

-- What the messages push to the tun device's queue, when the array holds these bytes at first.
abbrev pub pushed : List In → Bytes → List Bytes
pushed [] bytes = []
pushed (x ∷ xs) bytes = queued x bytes ++ pushed xs (array x bytes)

-- The thread has handled the messages, and goes on.
pub record GoesOn (k : Kernel) (client : ℕ) (fd : Fd) (fuel n : ℕ) (xs : List In) (bytes : Bytes)
    (m : Machine Vars) (run : Out Vars (Unit {0})) : Type 0 where
  pub header : Bytes
  pub array : Bytes
  pub machine : Machine Vars
  pub going : run ≡ read_thread k n fuel client header array machine
  pub after : After client fd (wires xs) (pushed xs bytes) m machine

one_round :
    (k : Kernel) (client n fuel : ℕ) (header bytes header' bytes' : Bytes) (m e : Machine Vars)
    → read_round k fuel client header bytes m ≡ ok (some (header', bytes')) e
    → read_thread k (suc n) fuel client header bytes m
      ≡ read_thread k n fuel client header' bytes' e
unfolding read_thread
one_round k client n fuel header bytes header' bytes' m e is = rw is refl

module _ (k : Kernel) (client : ℕ) (fd : Fd) (stream : Bytes) (feeds : Feeds k fd stream) where
  -- When a client's socket gives the bytes of a stream in pieces of any size, the bytes that
  -- come next in it are packets of at most 4091 bytes, each in a message of type 102, and
  -- heartbeats with any length, in any order, with anything behind them, and fewer than 60
  -- seconds have been counted for the client, then readThread, given a pass for each message and
  -- more than 4096 rounds for its reads, goes on with the passes that are left from a state in
  -- which exactly those bytes have been read, nothing has been sent, fewer than 60 seconds are
  -- counted, and the queue of the tun device has grown by the packets in order, each with the
  -- five bytes that the array of the message held behind it.
  pub read_thread-GoesOn :
      (xs : List In) (n fuel : ℕ) (header bytes rest : Bytes) (m : Machine Vars)
      → Live client fd m
      → AllSmall xs
      → stream ≡ taken fd m.log ++ (wires xs ++ rest)
      → data_size < fuel
      → length header ≡ header_size
      → GoesOn k client fd fuel n xs bytes m
          (read_thread k (length xs + n) fuel client header bytes m)
  unfolding read_thread
  read_thread-GoesOn [] n fuel header bytes rest m live small come enough five = record {
    header = header;
    array = bytes;
    machine = m;
    going = ap (λ j. read_thread k j fuel client header bytes m) (omega arith);
    after = record {
      live = live;
      stream = sym (append-nil _);
      queue = sym (append-nil _);
      quiet = λ g. refl;
    };
  }
  read_thread-GoesOn (x ∷ xs) n fuel header bytes rest m live small come enough five =
      let front = come ∙ ap (◌++◌ (taken fd m.log)) (append_assoc (wire x) (wires xs) rest) in
      let (r, e, is, (result, after)) = ran (
        read_round-After k client fd stream feeds x fuel header bytes (wires xs ++ rest) m live
          small.0 front enough five) in
      let come' =
        front
        ∙ sym (append_assoc (taken fd m.log) (wire x) (wires xs ++ rest))
        ∙ ap (λ z. z ++ (wires xs ++ rest)) (sym after.stream) in
      let g =
        read_thread-GoesOn xs n fuel (head x) (array x bytes) rest e after.live small.1 come' enough
          (length-head x) in
      let more : length (x ∷ xs) + n ≡ suc (length xs + n) = omega arith in
      record {
        header = g.header;
        array = g.array;
        machine = g.machine;
        going =
            ap (λ j. read_thread k j fuel client header bytes m) more
            ∙ one_round k client (length xs + n) fuel header bytes (head x) (array x bytes) m e
                (is ∙ ap (λ o. ok o e) result)
            ∙ g.going;
        after = record {
          live = g.after.live;
          stream =
              g.after.stream
              ∙ ap (λ z. z ++ wires xs) after.stream
              ∙ append_assoc (taken fd m.log) (wire x) (wires xs);
          queue =
              g.after.queue
              ∙ ap (λ z. z ++ pushed xs (array x bytes)) after.queue
              ∙ append_assoc m.vars.waiting_queue (queued x bytes) (pushed xs (array x bytes));
          quiet = λ f. g.after.quiet f ∙ after.quiet f;
        };
      }
