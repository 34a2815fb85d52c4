-- ===== src/Relay/Threads/Code.antt =====
-- The calls of readThread for an address request are steps of the threads.
use over.Base.{
  ℕ, ◌+◌, ◌≡◌, refl, sym, ◌∙◌, Bool, true, false, Option, none, some, [], ◌++◌, if◌then◌else◌,
  length, get_elem?, subst, ==-refl, Option-cases, inl, inr, ltb, ◌-◌, take,
}
use over.Kernel.{Bytes, Kernel}
use over.Run.{
  ◌>>=◌, ◌>>◌, Machine, ok, pure, and_then-ok, ok-injective, keeps, faults, Keeps-bind, Keeps-if,
  Keeps-option, Steady,
}
use over.Io.Steady.{write_all-Steady}
use over.Wire.{header_size, header_bytes}
use over.Relay.State.{Vars, Command, ClientConnection, client_at, change_client}
use over.Relay.Address.{get_free_ip, set_ip_status, set_connection_with_ip}
use over.Relay.Connection.{data_size, has_body, send_body, send_message}
use over.Relay.Reader.{ip_request, own_ip, unconnected, set_ipv4, info_tail}
use over.Relay.Threads.{
  Place, idle, chosen, marked, connected, Move, choose, mark, connect, Threads, update, call,
  elsewhere, Reach, later,
}
use over.Relay.Threads.Calls.{kept}

some-injective : {a b : Bytes} → some a ≡ some b → a ≡ b
some-injective e = cc

update_self : {A : Type 0} (f : ℕ → A) (i : ℕ) (a : A) → update f i a i ≡ a
update_self f i a = rw (==-refl i) refl

-- A machine, and the places after thread i has moved.
abbrev after : Threads → ℕ → Place → Machine Vars → Threads
after s i p n = record { machine = n; place = update s.place i p }

call_at :
    (s : Threads) (i : ℕ) (p q : Place) (n : Machine Vars)
    → Reach s
    → s.place i ≡ p
    → Move i s.machine p n q
    → Reach (after s i q n)
call_at s i p q n r at mv = later r (call i (subst (λ z. Move i s.machine z n q) (sym at) mv))

-- The table, the map and the mutex are as in these variables.
record Like (v w : Vars) : Type 0 where
  status : w.status ≡ v.status
  connections : w.connections ≡ v.connections
  locked : w.locked ≡ v.locked

client_at-Steady : (I : Vars → Type 0) (client : ℕ) → Steady I (client_at client)
unfolding client_at
client_at-Steady I client m h = elim (Option-cases (get_elem? m.vars.clients client)) [
  | inl e ↦ rw e faults
  | inr (c, e) ↦ rw e (keeps h)
]

change_client-Like :
    (v : Vars) (client : ℕ) (f : ClientConnection → ClientConnection)
    → Steady (Like v) (change_client client f)
unfolding change_client
change_client-Like v client f m h =
    keeps (record { status = h.status; connections = h.connections; locked = h.locked })

Like-refl : (v : Vars) → Like v v
Like-refl v = record { status = refl; connections = refl; locked = refl }

module _ (k : Kernel) where
  send_message-Steady :
      (I : Vars → Type 0) (client type len : ℕ) (body : Bytes)
      → Steady I (send_message k client type len body)
  unfolding send_message send_body
  send_message-Steady I client type len body m h =
      Keeps-bind (client_at-Steady I client m h) λ c n i.
        Keeps-bind (write_all-Steady k I c.socket_fd (header_bytes len type) n i) λ r o j.
          Keeps-option {m = o} r _ _ (λ _. keeps j)
            λ x _.
              Keeps-if {m = o} (has_body type) _ _
                (λ _.
                  Keeps-if {m = o} (ltb (data_size + header_size) len) _ _ (λ _. faults)
                    λ _.
                      Keeps-bind
                        (write_all-Steady k I c.socket_fd (take (len - header_size) body) o j)
                        λ q p g. keeps g)
                (λ _. keeps j)

  -- The branch of readThread for a client without an address, in three parts.
  abbrev choose_ip : ℕ → Command Bytes
  choose_ip client = get_free_ip >>= λ ip. change_client client (set_ipv4 ip) >> pure ip

  abbrev enter_ip : ℕ → Bytes → Command (Option Bytes)
  enter_ip client ip =
      set_ip_status ip true >> (set_connection_with_ip ip client >> pure (some (ip ++ info_tail)))

  abbrev reply : ℕ → Bytes → Command (Option Bytes)
  reply client ip =
      send_message k client 101 (length (ip ++ info_tail) + header_size) (ip ++ info_tail)
      >>= λ sent. if sent then enter_ip client ip else pure none

  ip_request-new :
      (client : ℕ) (c : ClientConnection) (m : Machine Vars)
      → get_elem? m.vars.clients client ≡ some c
      → c.ipv4 ≡ []
      → ip_request k client m ≡ (choose_ip client >>= reply client) m
  unfolding ip_request own_ip unconnected client_at
  ip_request-new client c m at none_yet = rw (at, none_yet) refl

  -- Anything that leaves the table, the map and the mutex alone.
  elsewhere_at :
      (s : Threads) (n : Machine Vars)
      → Reach s
      → Like s.machine.vars n.vars
      → Reach (record { machine = n; place = s.place })
  elsewhere_at s n r h = later r (elsewhere n h.status h.connections h.locked)

  choose_ip-Reach :
      (s : Threads) (client : ℕ) (ip : Bytes) (n : Machine Vars)
      → Reach s
      → s.place client ≡ idle
      → choose_ip client s.machine ≡ ok ip n
      → Reach (after s client (chosen ip) n)
  choose_ip-Reach s client ip n r at run =
      let (jp, m, got, run1) =
        and_then-ok (get_free_ip s.machine) (λ ip. change_client client (set_ipv4 ip) >> pure ip) ip
          n run in
      let (x, o, changed, run2) =
        and_then-ok (change_client client (set_ipv4 jp) m) (λ _. pure jp) ip n run1 in
      let like =
        kept x o changed (change_client-Like m.vars client (set_ipv4 jp) m (Like-refl m.vars)) in
      let (same_ip, same) = ok-injective run2 in
      let there =
        elsewhere_at (after s client (chosen jp) m) o
          (call_at s client idle (chosen jp) m r at (choose got)) like in
      subst (λ z. Reach (after s client (chosen ip) z)) same
        (subst (λ z. Reach (after s client (chosen z) o)) same_ip there)

  enter_ip-Reach :
      (s : Threads) (client : ℕ) (ip text : Bytes) (n : Machine Vars)
      → Reach s
      → s.place client ≡ chosen ip
      → enter_ip client ip s.machine ≡ ok (some text) n
      → (Reach (after (after s client (marked ip) n) client (connected ip) n))
        × (text ≡ ip ++ info_tail)
  enter_ip-Reach s client ip text n r at run =
      let (x, m, marks, run1) =
        and_then-ok (set_ip_status ip true s.machine)
          (λ _. set_connection_with_ip ip client >> pure (some (ip ++ info_tail))) (some text) n
          run in
      let (y, o, joins, run2) =
        and_then-ok (set_connection_with_ip ip client m) (λ _. pure (some (ip ++ info_tail)))
          (some text) n run1 in
      let (same_text, same) = ok-injective run2 in
      let there =
        call_at (after s client (marked ip) m) client (marked ip) (connected ip) o
          (call_at s client (chosen ip) (marked ip) m r at (mark marks))
          (update_self s.place client (marked ip)) (connect joins) in
      (
        subst (λ z. Reach (after (after s client (marked ip) n) client (connected ip) z)) same
            there,
        some-injective (sym same_text),
      )

  -- When the threads have reached a state in which a client's thread has made no call yet and
  -- its client has no address, and the code of readThread for an address request, run from there
  -- on any system, returns with the text of a reply, then the machine in which it ends is
  -- reached too, by steps of the threads after which the thread is entered for an address, and
  -- the text is that address with the rest of the reply behind it.
  pub ip_request-Reach :
      (s : Threads) (client : ℕ) (c : ClientConnection) (text : Bytes) (n : Machine Vars)
      → Reach s
      → s.place client ≡ idle
      → get_elem? s.machine.vars.clients client ≡ some c
      → c.ipv4 ≡ []
      → ip_request k client s.machine ≡ ok (some text) n
      → (t : Threads) × (ip : Bytes) × (Reach t)
        × (t.machine ≡ n)
        × (t.place client ≡ connected ip)
        × (text ≡ ip ++ info_tail)
  ip_request-Reach s client c text n r at entry none_yet run =
      let (ip, m2, chose, replied) =
        and_then-ok (choose_ip client s.machine) (reply client) (some text) n
          (sym (ip_request-new client c s.machine entry none_yet) ∙ run) in
      let r1 = choose_ip-Reach s client ip m2 r at chose in
      let (sent, m3, went, entered) =
        and_then-ok
          (send_message k client 101 (length (ip ++ info_tail) + header_size) (ip ++ info_tail) m2)
          (λ sent. if sent then enter_ip client ip else pure none) (some text) n replied in
      let quiet = kept sent m3 went (
        send_message-Steady (Like m2.vars) client 101 (length (ip ++ info_tail) + header_size)
          (ip ++ info_tail) m2 (Like-refl m2.vars)) in
      let (there, same_text) =
        enter_ip-Reach (after s client (chosen ip) m3) client ip text n
          (elsewhere_at (after s client (chosen ip) m2) m3 r1 quiet)
          (update_self s.place client (chosen ip)) (when_sent client ip text sent m3 n entered) in
      (
        _,
        ip,
        there,
        refl,
        update_self ((after (after s client (chosen ip) m3) client (marked ip) n).place) client
            (connected ip),
        same_text,
      )
    where
      when_sent :
          (client : ℕ) (ip text : Bytes) (sent : Bool) (m n : Machine Vars)
          → (if sent then enter_ip client ip else pure none) m ≡ ok (some text) n
          → enter_ip client ip m ≡ ok (some text) n
      when_sent client ip text true m n h = h
      when_sent client ip text false m n h = absurd (let e = (ok-injective h).0 in cc)
