-- ===== src/Relay/Receiving.antt =====
-- A round of readThread against the bytes of a client's stream.
pub mod Thread
use over.Base.{
  subst, ℕ, zero, suc, ◌+◌, ◌-◌, ◌<◌, ◌≤◌, ◌≡◌, refl, sym, ap, ◌∙◌, inl, inr, Bool, true, false,
  some, pos, List, [], ◌∷◌, ◌++◌, arith, ltb, length, take, drop, get_elem?, append_assoc,
  append-nil, length-append, length-take, length-drop, take-append-le, take-append-drop, modify,
  get_elem?-modify_self, Bool-cases, ltb→lt, ltb→le, ==-refl, drop-le, lt→ltb,
}
use over.Kernel.{Fd, Bytes, Kernel, Feeds, reads, sent, taken}
use over.Run.{Machine, Returns, returns, bind, mono}
use over.Wire.{frame, header_bytes, read_header, header_length, header_size}
use over.Wire.RoundTrip.{read_header-header_bytes, length-header_bytes}
use over.Relay.Filling.{data_string-append, Fills, read_loop-Fills}
use over.Relay.State.{Vars, ClientConnection, client_at, change_client, push}
use over.Relay.Connection.{data_size, set_count}
use over.Relay.Reader.{
  read_loop, push_queue, data_string, replace, read_packet, switch_message, read_round,
}

-- A message of a client that has its address: a packet, or a heartbeat with any length.
pub data In : Type 0 where
  packet : Bytes → In
  heartbeat : ℕ → In

abbrev pub head : In → Bytes
head (packet p) = header_bytes (length p + header_size) 102
head (heartbeat len) = header_bytes len 104

abbrev pub body : In → Bytes
body (packet p) = p
body (heartbeat len) = []

abbrev pub wire : In → Bytes
wire x = head x ++ body x

abbrev pub Small : In → Type 0
Small (packet p) = length p + header_size ≤ data_size
Small (heartbeat len) = Unit {0}

-- The array behind the header afterwards.
abbrev pub array : In → Bytes → Bytes
array (packet p) bytes = replace p bytes
array (heartbeat len) bytes = bytes

-- What goes to the tun device: the packet, and five bytes of what the array held before.
abbrev pub queued : In → Bytes → List Bytes
queued (packet p) bytes = (p ++ data_string 5 (drop (length p) bytes)) ∷ []
queued (heartbeat len) bytes = []

pub length-head : (x : In) → length (head x) ≡ header_size
length-head (packet p) = length-header_bytes (length p + header_size) 102
length-head (heartbeat len) = length-header_bytes len 104

-- The client has this socket and has been heard of.
pub record Live (client : ℕ) (fd : Fd) (m : Machine Vars) : Type 0 where
  pub connection : ClientConnection
  pub at : get_elem? m.vars.clients client ≡ some connection
  pub own : connection.socket_fd ≡ fd
  pub heard : connection.heart_beat_count < 60

-- These bytes have been read, and these packets pushed; nothing has been sent.
pub record After (client : ℕ) (fd : Fd) (read : Bytes) (new : List Bytes) (m e : Machine Vars)
    : Type 0 where
  pub live : Live client fd e
  pub stream : taken fd e.log ≡ taken fd m.log ++ read
  pub queue : e.vars.waiting_queue ≡ m.vars.waiting_queue ++ new
  pub quiet : (g : Fd) → sent g e.log ≡ sent g m.log

module _ (k : Kernel) (client : ℕ) (fd : Fd) (stream : Bytes) (feeds : Feeds k fd stream) where
  read_packet-After :
      (fuel : ℕ) (p bytes rest : Bytes) (m : Machine Vars)
      → Live client fd m
      → stream ≡ taken fd m.log ++ (p ++ rest)
      → length p + header_size ≤ data_size
      → data_size < fuel
      → Returns
          (λ r e. (r ≡ some (replace p bytes)) × After client fd p (queued (packet p) bytes) m e)
          (read_packet k fuel fd (length p + header_size) bytes m)
  unfolding read_packet push_queue push sent taken
  read_packet-After fuel p bytes rest m live come small enough =
      let b : ltb data_size (length p + header_size) ≡ false = ground arith in
      rw b (
        bind
          (read_loop-Fills k fd stream feeds fuel data_size (length p + header_size - header_size)
            [] p rest m come (omega arith) (omega arith) (omega arith))
          λ r n d.
            rw (d.result, data_string-append p (drop (length p) bytes) 5, d.same)
              (returns (
                refl,
                record {
                  live = record {
                    connection = live.connection;
                    at = live.at;
                    own = live.own;
                    heard = live.heard;
                  };
                  stream = d.read;
                  queue = refl;
                  quiet = d.quiet;
                },
              )))

  -- A packet whose header has been read.
  switch_packet-After :
      (fuel : ℕ) (p bytes rest : Bytes) (m : Machine Vars)
      → Live client fd m
      → stream ≡ taken fd m.log ++ (p ++ rest)
      → length p + header_size ≤ data_size
      → data_size < fuel
      → let header = header_bytes (length p + header_size) 102 in
        Returns
          (λ r e.
            (r ≡ some (header, replace p bytes)) × After client fd p (queued (packet p) bytes) m e)
          (switch_message k fuel client header bytes m)
  unfolding switch_message client_at
  switch_packet-After fuel p bytes rest m live come small enough =
      let header = header_bytes (length p + header_size) 102 in
      let read =
        subst
          (λ z.
            (header_length (read_header z) ≡ pos (length p + header_size))
            × ((read_header z).type ≡ 102))
          (append-nil header)
          (read_header-header_bytes (length p + header_size) 102 [] (omega arith)) in
      rw (live.at, read.1, read.0, live.own)
        (bind (read_packet-After fuel p bytes rest m live come small enough)
          λ r e d. rw d.0 (returns (refl, d.1)))

  -- A heartbeat whose header has been read.
  switch_heartbeat-After :
      (fuel len : ℕ) (bytes : Bytes) (m : Machine Vars)
      → Live client fd m
      → let header = header_bytes len 104 in
        Returns
          (λ r e. (r ≡ some (header, bytes)) × After client fd [] [] m e)
          (switch_message k fuel client header bytes m)
  unfolding switch_message client_at change_client set_count read_header header_bytes
  switch_heartbeat-After fuel len bytes m live = rw live.at (
      returns (
        refl,
        record {
          live = record {
            connection = set_count 0 live.connection;
            at = get_elem?-modify_self (set_count 0) client m.vars.clients live.at;
            own = live.own;
            heard = omega arith;
          };
          stream = sym (append-nil _);
          queue = sym (append-nil _);
          quiet = λ g. refl;
        },
      ))

  switch-After :
      (x : In) (fuel : ℕ) (bytes rest : Bytes) (m : Machine Vars)
      → Live client fd m
      → Small x
      → stream ≡ taken fd m.log ++ (body x ++ rest)
      → data_size < fuel
      → Returns
          (λ r e.
            (r ≡ some (head x, array x bytes)) × After client fd (body x) (queued x bytes) m e)
          (switch_message k fuel client (head x) bytes m)
  switch-After (packet p) fuel bytes rest m live small come enough =
      switch_packet-After fuel p bytes rest m live come small enough
  switch-After (heartbeat len) fuel bytes rest m live small come enough =
      switch_heartbeat-After fuel len bytes m live

  pub read_round-After :
      (x : In) (fuel : ℕ) (header bytes rest : Bytes) (m : Machine Vars)
      → Live client fd m
      → Small x
      → stream ≡ taken fd m.log ++ (wire x ++ rest)
      → data_size < fuel
      → length header ≡ header_size
      → Returns
          (λ r e.
            (r ≡ some (head x, array x bytes)) × After client fd (wire x) (queued x bytes) m e)
          (read_round k fuel client header bytes m)
  unfolding read_round client_at
  read_round-After x fuel header bytes rest m live small come enough five =
      let heard : ltb live.connection.heart_beat_count 60 ≡ true = lt→ltb _ 60 live.heard in
      let size : length (head x) ≡ header_size = length-head x in
      let whole : replace (head x) header ≡ head x =
        ap (λ z. head x ++ z) (drop-le (length (head x)) header (omega arith))
        ∙ append-nil (head x) in
      let front = come ∙ ap (◌++◌ (taken fd m.log)) (append_assoc (head x) (body x) rest) in
      rw (live.at, heard, live.own)
        (bind
          (read_loop-Fills k fd stream feeds fuel header_size header_size [] (head x)
            (body x ++ rest) m front (omega arith) (omega arith) (omega arith))
          λ r n d.
            rw (d.result, whole)
              (mono
                (switch-After x fuel bytes rest n
                  (record {
                    connection = live.connection;
                    at = ap (λ v. get_elem? v.clients client) d.same ∙ live.at;
                    own = live.own;
                    heard = live.heard;
                  })
                  small
                  (front
                    ∙ sym (append_assoc (taken fd m.log) (head x) _)
                    ∙ ap (λ z. z ++ (body x ++ rest)) (sym d.read))
                  enough)
                λ q e a. (
                  a.0,
                  record {
                    live = a.1.live;
                    stream =
                        a.1.stream
                        ∙ ap (λ z. z ++ body x) d.read
                        ∙ append_assoc (taken fd m.log) (head x) (body x);
                    queue = a.1.queue ∙ ap (λ v. v.waiting_queue ++ queued x bytes) d.same;
                    quiet = λ g. a.1.quiet g ∙ d.quiet g;
                  },
                )))
