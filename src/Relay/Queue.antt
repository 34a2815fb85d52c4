-- ===== src/Relay/Queue.antt =====
-- What the three threads of a client write to its socket, in whole messages: sendMessage holds
-- sendMutex from the first byte to the last.
pub mod Turns
use over.Base.{
  subst, ℕ, ◌+◌, ◌≤◌, ◌<◌, ◌≡◌, ◌⊎◌, arith, refl, sym, ap, ◌∙◌, inl, inr, Bool, true, false, some,
  List, [], ◌∷◌, ◌++◌, pos, get_elem?, append_assoc, append-nil, length, take, drop,
  take-append-drop,
}
use over.Kernel.{Fd, Bytes, Kernel, WritesWithin, sent, refused}
use over.Run.{Machine, Returns, mono}
use over.Wire.{frame, header_size, header_bytes}
use over.Relay.State.{Vars, Command, Msg, ClientConnection}
use over.Relay.Connection.{data_size, send_message}
use over.Relay.Sending.{send_message-Sends}
use over.Relay.Silence.{beat}

-- A message to a client: a packet, the reply to a request for an address, a heartbeat.
pub data Kind : Type 0 where
  packet reply : Bytes → Kind
  heartbeat : Kind

abbrev pub wire : Kind → Bytes
wire (packet p) = frame 103 p
wire (reply text) = frame 101 text
wire heartbeat = header_bytes 0 104

abbrev pub Small : Kind → Type 0
Small (packet p) = length p ≤ data_size
Small (reply text) = length text ≤ data_size
Small heartbeat = Unit {0}

abbrev pub wires : List Kind → Bytes
wires [] = []
wires (x ∷ xs) = wire x ++ wires xs

-- The packets among them.
abbrev pub packets : List Kind → List Bytes
packets [] = []
packets (packet p ∷ xs) = p ∷ packets xs
packets (reply text ∷ xs) = packets xs
packets (heartbeat ∷ xs) = packets xs

pub wires-snoc : (xs : List Kind) (x : Kind) → wires (xs ++ x ∷ []) ≡ wires xs ++ wire x
wires-snoc [] x = append-nil (wire x)
wires-snoc (y ∷ xs) x = ap (◌++◌ (wire y)) (wires-snoc xs x) ∙ sym (append_assoc (wire y) _ _)

pub packets-snoc :
    (xs : List Kind) (x : Kind) → packets (xs ++ x ∷ []) ≡ packets xs ++ packets (x ∷ [])
packets-snoc [] x = refl
packets-snoc (packet p ∷ xs) x = ap (◌∷◌ p) (packets-snoc xs x)
packets-snoc (reply text ∷ xs) x = packets-snoc xs x
packets-snoc (heartbeat ∷ xs) x = packets-snoc xs x

abbrev pub message : Bytes → Msg
message p = record { length = pos (length p + header_size); type = 103; data_bytes = p }

abbrev pub messages : List Bytes → List Msg
messages [] = []
messages (p ∷ ps) = message p ∷ messages ps

abbrev pub Fit : List Bytes → Type 0
Fit [] = Unit {0}
Fit (p ∷ ps) = (length p ≤ data_size) × Fit ps

-- Behind `base` the stream is whole messages, whose packets, with those in the queue, are `all`; as
-- many writes to it have failed as at the start.
pub record Holds (client : ℕ) (fd : Fd) (start : ℕ) (base : Bytes) (all : List Bytes)
    (m : Machine Vars) : Type 0 where
  pub connection : ClientConnection
  pub at : get_elem? m.vars.clients client ≡ some connection
  pub socket : connection.socket_fd ≡ fd
  pub waiting : List Bytes
  pub queue : connection.write_queue ≡ messages waiting
  pub fit : Fit waiting
  pub out : List Kind
  pub stream : sent fd m.log ≡ base ++ wires out
  pub order : packets out ++ waiting ≡ all
  pub unbroken : refused fd m.log ≡ start

-- The stream ends within a message, since a write has failed.
pub record Broken (fd : Fd) (start : ℕ) (base : Bytes) (all : List Bytes) (m : Machine Vars)
    : Type 0 where
  pub out : List Kind
  pub last : Kind
  pub part : Bytes
  pub behind : Bytes
  pub whole : part ++ behind ≡ wire last
  pub stream : sent fd m.log ≡ base ++ (wires out ++ part)
  pub later : List Bytes
  pub order : packets (out ++ last ∷ []) ++ later ≡ all
  pub failed : start < refused fd m.log

unfoldable pub Passed : ℕ → Fd → ℕ → Bytes → List Bytes → Bool → Machine Vars → Type 0
Passed client fd start base all r n =
    ((r ≡ true) × Holds client fd start base all n) ⊎ ((r ≡ false) × Broken fd start base all n)

-- The call of sendMessage for a message.
abbrev pub send : Kernel → ℕ → Kind → Command Bool
send k client (packet p) = send_message k client 103 (length p + header_size) p
send k client (reply text) = send_message k client 101 (length text + header_size) text
send k client heartbeat = send_message k client 104 0 []

-- All of the message has gone out, or a part of it.
record Goes (fd : Fd) (x : Kind) (m : Machine Vars) (r : Bool) (n : Machine Vars) : Type 0 where
  same : n.vars ≡ m.vars
  stopped : r ≡ false → refused fd m.log < refused fd n.log
  went_on : r ≡ true → refused fd n.log ≡ refused fd m.log
  outcome :
      ((r ≡ true) × (sent fd n.log ≡ sent fd m.log ++ wire x))
      ⊎ ((r ≡ false)
          × (part : Bytes) × (behind : Bytes) × (part ++ behind ≡ wire x)
          × (sent fd n.log ≡ sent fd m.log ++ part))

module _ (k : Kernel) (fits : WritesWithin k) (client : ℕ) (fd : Fd) where
  send-Goes :
      (x : Kind) (c : ClientConnection) (m : Machine Vars)
      → get_elem? m.vars.clients client ≡ some c
      → c.socket_fd ≡ fd
      → Small x
      → Returns (Goes fd x m) (send k client x m)
  send-Goes (packet p) c m at own small =
      mono (send_message-Sends k fits fd client 103 c p m at own refl small) λ r n s. record {
        same = s.same;
        stopped = s.stopped;
        went_on = s.went_on;
        outcome = s.outcome;
      }
  send-Goes (reply text) c m at own small =
      mono (send_message-Sends k fits fd client 101 c text m at own refl small) λ r n s. record {
        same = s.same;
        stopped = s.stopped;
        went_on = s.went_on;
        outcome = s.outcome;
      }
  send-Goes heartbeat c m at own small =
      let header = header_bytes 0 104 in
      mono (beat k fits client c m at) λ r n d. record {
        same = d.0;
        stopped = λ no. elim d.1 [
          | inl (e, _, _) ↦ absurd (cc)
          | inr (_, _, _, more) ↦
              subst (λ f. refused f m.log < refused f n.log) own (omega (arith, more))
        ];
        went_on = λ yes. elim d.1 [
          | inl (_, _, kept) ↦ subst (λ f. refused f n.log ≡ refused f m.log) own kept
          | inr (e, _, _, _) ↦ absurd (cc)
        ];
        outcome = elim d.1 [
          | inl (e, s, _) ↦ inl (e, subst (λ f. sent f n.log ≡ sent f m.log ++ header) own s)
          | inr (e, q, s, _) ↦ inr (
            e,
            take q header,
            drop q header,
            take-append-drop q header,
            subst (λ f. sent f n.log ≡ sent f m.log ++ take q header) own s,
          )
        ];
      }

  -- A message goes out whose packets come before those in the queue.
  pub send-Passed :
      (x : Kind) (start : ℕ) (base : Bytes) (out : List Kind) (waiting all : List Bytes)
      (c : ClientConnection) (m : Machine Vars)
      → get_elem? m.vars.clients client ≡ some c
      → c.socket_fd ≡ fd
      → c.write_queue ≡ messages waiting
      → Fit waiting
      → Small x
      → sent fd m.log ≡ base ++ wires out
      → packets (out ++ x ∷ []) ++ waiting ≡ all
      → refused fd m.log ≡ start
      → Returns (Passed client fd start base all) (send k client x m)
  unfolding Passed
  send-Passed x start base out waiting all c m at own queue fit small stream order before =
      mono (send-Goes x c m at own small) λ r n d. elim d.outcome [
        | inl (e, s) ↦ inl (
          e,
          record {
            connection = c;
            at = ap (λ v. get_elem? v.clients client) d.same ∙ at;
            socket = own;
            waiting = waiting;
            queue = queue;
            fit = fit;
            out = out ++ x ∷ [];
            stream =
                s
                ∙ ap (λ z. z ++ wire x) stream
                ∙ append_assoc base (wires out) (wire x)
                ∙ ap (◌++◌ base) (sym (wires-snoc out x));
            order = order;
            unbroken = d.went_on e ∙ before;
          },
        )
        | inr (e, part, behind, whole, s) ↦ inr (
          e,
          record {
            out = out;
            last = x;
            part = part;
            behind = behind;
            whole = whole;
            stream = s ∙ ap (λ z. z ++ part) stream ∙ append_assoc base (wires out) part;
            later = waiting;
            order = order;
            failed = omega (arith, d.stopped e, before);
          },
        )
      ]
