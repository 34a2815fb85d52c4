-- ===== src/Relay/State.antt =====
-- The shared state of the threads of server/4over6-server, and its message queue.
use over.Base.{ℕ, ℤ, Bool, Option, none, some, List, [], ◌∷◌, ◌++◌, get_elem?, match_option, modify}
use over.Kernel.{Fd, Bytes}
use over.Run.{Cmd, ok, fault, put_vars}

-- The bytes of `data` that were filled in.
pub record Msg : Type 0 where
  pub length : ℤ
  pub type : ℕ
  pub data_bytes : Bytes

-- A ClientConnection; the empty `ipv4` is a connection without an address.
pub record ClientConnection : Type 0 where
  pub socket_fd : Fd
  pub heart_beat_count : ℕ
  pub ipv6 : Bytes
  pub ipv4 : Bytes
  pub write_queue : List Msg

-- `connections` names an object by its index in `clients`, the newest entry of a key first; `locked`
-- is ipMutex.
pub record Vars : Type 0 where
  pub locked : Bool
  pub status : List Bool
  pub connections : List (ℕ × ℕ)
  pub clients : List ClientConnection
  pub waiting_queue : List Bytes
  pub tun_fd : Fd

abbrev pub Command : Type 0 → Type 0
Command = Cmd Vars

unfoldable pub client_at : ℕ → Command ClientConnection
client_at i m = match_option (get_elem? m.vars.clients i) fault (λ c. ok c m)

unfoldable pub change_client : ℕ → (ClientConnection → ClientConnection) → Command (Unit {0})
change_client i f m = put_vars (record (m.vars) { clients = modify f i m.vars.clients }) m

-- MsgQueue::push
unfoldable pub push : {A : Type 0} → A → List A → List A
push x queue = queue ++ x ∷ []

-- MsgQueue::pop, which waits while the queue is empty: `none`
unfoldable pub pop : {A : Type 0} → List A → Option (A × List A)
pop [] = none
pop (x ∷ queue) = some (x, queue)
