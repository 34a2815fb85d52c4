-- ===== src/Kernel.antt =====
-- The operating system under the programs: every call's answer is a parameter, a function of the
-- calls made before it, so nothing is fixed about it but what a hypothesis states.
pub mod Stub
use over.Base.{
  ℕ, ◌+◌, none, ◌≤◌, ◌<◌, ◌≡◌, ◌≢◌, Bool, Option, some, List, [], ◌∷◌, ◌++◌, ◌==◌, if◌then◌else◌,
  length, take,
}

abbrev pub Fd : Type 0
Fd = ℕ

abbrev pub Bytes : Type 0
Bytes = List ℕ

-- A call that has been made, with its answer; `none` is a negative return value.
pub data Event : Type 0 where
  reads : Fd → Option Bytes → Event
  writes : Fd → Bytes → Option ℕ → Event
  closes : Fd → Event
  epoll_adds epoll_dels : Fd → Bool → Event
  -- whether room for output is asked for too
  epoll_mods : Fd → Bool → Event
  nonblocks : Fd → Bool → Event
  epoll_waits : Option (List Fd) → Event
  epoll_creates : Option Fd → Event
  accepts : Option Fd → Event
  peers : Fd → Bytes → Event
  times : ℕ → Event
  sockets : Option Fd → Event
  reuses binds listens connects : Fd → Bool → Event
  tun_opens : Option Fd → Event
  tun_names : Fd → Bool → Event
  shells : Event
  polls : Option (List Fd) → Event

abbrev pub Log : Type 0
Log = List Event

-- The `events` of an epoll event: EPOLLERR or EPOLLHUP, EPOLLIN, and EPOLLOUT.
pub record Flags : Type 0 where
  pub failing : Bool
  pub input : Bool
  pub output : Bool

pub record Kernel : Type 0 where
  -- read(fd, _, count) and recv: the bytes read, none of them at the end of the stream
  pub read : Log → Fd → ℕ → Option Bytes
  -- write(fd, bytes, length): how many of the bytes were taken
  pub write : Log → Fd → Bytes → Option ℕ
  pub epoll_add : Log → Fd → Bool
  pub epoll_del : Log → Fd → Bool
  pub epoll_wait : Log → Option (List Fd)
  -- what an event of the descriptor reports
  pub flags : Log → Fd → Flags
  pub set_nonblock : Log → Fd → Bool
  pub epoll_create : Log → Option Fd
  pub accept : Log → Option Fd
  pub getpeername : Log → Fd → Bytes
  pub time : Log → ℕ
  pub socket : Log → Option Fd
  pub set_reuse : Log → Fd → Bool
  pub bind : Log → Fd → Bool
  pub listen : Log → Fd → Bool
  pub connect : Log → Fd → Bool
  pub open_tun : Log → Option Fd
  pub name_tun : Log → Fd → Bool
  -- the descriptors that poll reports as readable
  pub poll : Log → List Fd → Option (List Fd)
  -- the bytes in memory behind a heap block, which an over-long read would meet
  pub heap_tail : Log → Bytes

-- read never gives more than it was asked for.
abbrev pub ReadsWithin : Kernel → Type 0
ReadsWithin k =
    (l : Log) (fd : Fd) (count : ℕ) (bytes : Bytes)
    → k.read l fd count ≡ some bytes
    → length bytes ≤ count

-- write of a block that is not empty fails, or takes a byte at least and not more than offered.
abbrev pub WritesWithin : Kernel → Type 0
WritesWithin k =
    (l : Log) (fd : Fd) (bytes : Bytes) (n : ℕ)
    → bytes ≢ []
    → k.write l fd bytes ≡ some n
    → (0 < n) × (n ≤ length bytes)

-- The bytes that a descriptor has taken, in order.
unfoldable pub sent : Fd → Log → Bytes
sent fd [] = []
sent fd (writes f bytes (some n) ∷ l) = if f == fd then sent fd l ++ take n bytes else sent fd l
sent fd (_ ∷ l) = sent fd l

-- The writes to a descriptor that failed.
unfoldable pub refused : Fd → Log → ℕ
refused fd [] = 0
refused fd (writes f bytes none ∷ l) = if f == fd then 1 + refused fd l else refused fd l
refused fd (_ ∷ l) = refused fd l

-- The writes to a descriptor that failed or took less or more than the whole block.
unfoldable pub cut_short : Fd → Log → ℕ
cut_short fd [] = 0
cut_short fd (writes f bytes none ∷ l) = if f == fd then 1 + cut_short fd l else cut_short fd l
cut_short fd (writes f bytes (some n) ∷ l) =
    if f == fd then (if n == length bytes then 0 else 1) + cut_short fd l else cut_short fd l
cut_short fd (_ ∷ l) = cut_short fd l

-- The bytes that were read from a descriptor, in order.
unfoldable pub taken : Fd → Log → Bytes
taken fd [] = []
taken fd (reads f (some bytes) ∷ l) = if f == fd then taken fd l ++ bytes else taken fd l
taken fd (_ ∷ l) = taken fd l

-- A stream that goes on: each read gives a byte at least and no more than asked for.
abbrev pub Flows : Kernel → Fd → Type 0
Flows k fd =
    (l : Log) (count : ℕ)
    → 0 < count
    → (bytes : Bytes) × (k.read l fd count ≡ some bytes)
      × (0 < length bytes)
      × (length bytes ≤ count)

-- The bytes of a stream: each read gives some of those that come next, one at least and no more than
-- asked for, as long as there are any.
abbrev pub Feeds : Kernel → Fd → Bytes → Type 0
Feeds k fd stream =
    (l : Log) (count : ℕ) (next : Bytes)
    → stream ≡ taken fd l ++ next
    → 0 < count
    → 0 < length next
    → (n : ℕ) × (k.read l fd count ≡ some (take n next)) × (0 < n) × (n ≤ count) × (n ≤ length next)
