-- ===== src/Server/Tun/Delivery.antt =====
-- A packet from the tun device reaches the client that holds its destination address.
use over.Base.{
  match_option, ℕ, zero, suc, ◌+◌, ◌-◌, ◌*◌, ◌<◌, ◌≤◌, ◌≡◌, ◌≢◌, ◌⊎◌, inl, inr, refl, sym, ap, ◌∙◌,
  subst, Bool, true, false, not, ◌&&◌, Option, none, some, List, [], ◌∷◌, ◌++◌, arith, ltb, ◌==◌,
  length, take, drop, get_elem?, set, take-append-le, take-append-add, append_assoc, lt→ltb, le→ltb,
  length-append, find_index, find_index-eq, Bool-cases, Option-cases, get_elem?-set_self,
  get_elem?-lt, drop-le, length-set, is_some,
}
use over.Kernel.{refused, Fd, Bytes, Kernel, WritesWithin, sent}
use over.Run.{Machine, Returns, returns, bind, mono, pure, ◌>>◌}
use over.Io.Delivery.{Delivers, write_all-Delivers}
use over.Wire.{frame, header_bytes, header_size, u32_at}
use over.Server.State.{Vars, User, data_rsb, short, set_buf, buf_size}
use over.Server.Pool.{holds_addr, search_by_addr}
use over.Server.Tun.{forward, write_all_to, tun_loop, process_tun, ip_header_size, daddr_offset}
use over.Server.Table.{IsTable, IsEntry, is_reserved, slot_number}

-- Two blocks delivered one after the other, as one block.
deliver_both :
    {S : Type 0} (fd : Fd) (a b : Bytes) (m n o : Machine S) (r : Option ℕ)
    → Delivers fd a (length a) m (some (length a)) n
    → Delivers fd b (length b) n r o
    → Delivers fd (a ++ b) (length b) m r o
deliver_both fd a b m n o r da db = record {
  same = db.same ∙ da.same;
  others = λ f ne. db.others f ne ∙ da.others f ne;
  refusals = omega (arith, db.refusals, da.refusals);
  last = db.last;
  outcome = elim da.outcome [
    | inr (e, _) ↦ absurd (cc)
    | inl (_, sa) ↦ elim db.outcome [
      | inl (e, sb) ↦ inl (e, rw (sb, sa) (append_assoc _ a b))
      | inr (e, (j, lt, sb)) ↦ inr (
        e,
        (
          length a + j,
          omega (arith, length-append a b),
          rw (sb, sa, take-append-add a b j) (append_assoc _ a (take j b)),
        ),
      )
    ]
  ];
}

-- A first block that fails is a failure of both.
deliver_first :
    {S : Type 0} (fd : Fd) (a b : Bytes) (m n : Machine S)
    → Delivers fd a (length a) m none n
    → Delivers fd (a ++ b) (length b) m none n
deliver_first fd a b m n da = record {
  same = da.same;
  others = da.others;
  refusals = da.refusals;
  last = da.last;
  outcome = elim da.outcome [
    | inl (e, _) ↦ absurd (cc)
    | inr (e, (j, lt, sa)) ↦ inr (
      refl,
      (
        j,
        omega (arith, length-append a b),
        sa ∙ ap (◌++◌ _) (sym (take-append-le j a b (omega arith))),
      ),
    )
  ];
}

module _ (k : Kernel) (fits : WritesWithin k) where
  -- The header and the packet are delivered as one message of the tunnel.
  pub forward-Delivers :
      (c : Fd) (packet : Bytes) (m : Machine Vars)
      → Returns (Delivers c (frame data_rsb packet) (length packet) m) (forward k (some c) packet m)
  unfolding forward frame
  forward-Delivers c packet m =
      bind (write_all-Delivers k fits c (header_bytes (length packet + header_size) data_rsb) m)
        next
    where
      header : Bytes
      header = header_bytes (length packet + header_size) data_rsb

      all_taken :
          (w : ℕ) (n : Machine Vars)
          → Delivers c header (length header) m (some w) n
          → w ≡ length header
      all_taken w n d = elim d.outcome [ inl (e, _) ↦ cc | inr (e, _) ↦ cc ]

      next :
          (r : Option ℕ) (n : Machine Vars)
          → Delivers c header (length header) m r n
          → Returns (Delivers c (header ++ packet) (length packet) m) (
              (over.Base.if◌then◌else◌
                  (short r header_size)
                  (pure none)
                  (write_all_to k (some c) packet))
                n)
      next none n d = returns (deliver_first c header packet m n d)
      next (some w) n d = rw (le→ltb w header_size (omega (arith, all_taken w n d))) (
          mono (write_all-Delivers k fits c packet n) λ r o d'.
            deliver_both c header packet m n o r
              (subst (λ x. Delivers c header (length header) m (some x) n) (all_taken w n d) d) d')

-- What becomes of a packet for the client at `c`, in the buffer of `tun` or read into it: the table
-- and the other streams stay; the client has got it as one message and the buffer is empty, or the
-- client's stream broke off inside the message at a write that failed and the packet stays in the
-- buffer.
pub record Tunnels (tun c : Fd) (packet : Bytes) (m m' : Machine Vars) : Type 0 where
  pub table : m'.vars.users ≡ m.vars.users
  pub others : (f : Fd) → f ≢ c → sent f m'.log ≡ sent f m.log
  pub outcome :
      ((sent c m'.log ≡ sent c m.log ++ frame data_rsb packet)
        × (get_elem? m'.vars.bufs tun ≡ some []))
      ⊎ ((n : ℕ) × (n < length (frame data_rsb packet))
          × (sent c m'.log ≡ sent c m.log ++ take n (frame data_rsb packet))
          × (refused c m'.log ≡ 1 + refused c m.log)
          × (get_elem? m'.vars.bufs tun ≡ some packet))

-- No other entry of a well-formed table matches the address of an entry that is held.
other_entry : (i j : ℕ) (x : User) → j ≢ i → IsEntry j x → holds_addr (slot_number i) x ≡ false
other_entry i j x ne e = elim (Bool-cases (is_reserved j)) [
  | inl r ↦ ground (arith, e.kept_back r)
  | inr r ↦ elim (Bool-cases x.status) [
    | inl free ↦ ground arith
    | inr used ↦ ground (arith, e.held r used)
  ]
]

-- In a well-formed table, the address of an entry that is neither reserved nor free is found at
-- that entry and no other.
pub search_by_addr-slot :
    (us : List User) (i : ℕ) (u : User)
    → IsTable us
    → get_elem? us i ≡ some u
    → is_reserved i ≡ false
    → u.status ≡ false
    → search_by_addr (slot_number i) us ≡ some i
unfolding search_by_addr
search_by_addr-slot us i u t at nr used =
    find_index-eq (holds_addr (slot_number i)) us i u at
      (ground (arith, (t.entries i u at).held nr used))
      (λ j x lt h. other_entry i j x (λ e. absurd (omega arith)) (t.entries j x h))

module _ (k : Kernel) (fits : WritesWithin k) (tun c i : ℕ) (packet : Bytes) (u : User) where
  tun_loop-Tunnels :
      (f : ℕ) (m : Machine Vars)
      → IsTable m.vars.users
      → get_elem? m.vars.users i ≡ some u
      → is_reserved i ≡ false
      → u.status ≡ false
      → u.fd ≡ some c
      → get_elem? m.vars.bufs tun ≡ some packet
      → ip_header_size ≤ length packet
      → u32_at packet daddr_offset ≡ slot_number i
      → Returns (λ _. Tunnels tun c packet m) (tun_loop k (suc (suc f)) tun m)
  unfolding tun_loop
  tun_loop-Tunnels f m t at nr used held buf long dest =
      rw (buf, le→ltb _ _ long, dest, search_by_addr-slot m.vars.users i u t at nr used, at, held)
        (bind (forward-Delivers k fits c packet m) next)
    where
      next :
          (r : Option ℕ) (n : Machine Vars)
          → Delivers c (frame data_rsb packet) (length packet) m r n
          → Returns
              (λ _. Tunnels tun c packet m)
              ((match_option r
                  (pure {S = Vars} tt)
                  (λ w. set_buf tun (drop (length packet) packet) >> tun_loop k (suc f) tun))
                n)
      next none n d = returns (record {
        table = ap (λ (v : Vars). v.users) d.same;
        others = d.others;
        outcome = elim d.outcome [
          | inl (e, _) ↦ absurd (cc)
          | inr (_, (j, lt, s)) ↦ inr (j, lt, s, omega (arith, d.refusals), rw d.same buf)
        ];
      })
      next (some w) n d =
          let room : tun < length n.vars.bufs = rw d.same (get_elem?-lt m.vars.bufs tun buf) in
          let empty : drop (length packet) packet ≡ [] =
            drop-le (length packet) packet (omega arith) in
          rw (empty, lt→ltb _ _ room, get_elem?-set_self n.vars.bufs tun [] room)
            (returns {m = record n { vars = record (n.vars) { bufs = set n.vars.bufs tun [] } }}
              (record {
                table = ap (λ (v : Vars). v.users) d.same;
                others = d.others;
                outcome = elim d.outcome [
                  | inl (_, s) ↦ inl (s, get_elem?-set_self n.vars.bufs tun [] room)
                  | inr (e, _) ↦ absurd (cc)
                ];
              }))

  -- With a well-formed address table and an empty tun buffer, a packet read from the tun device
  -- for the address of an entry that a client holds makes the handler return with the table as
  -- it was and no other stream touched: either that client's stream has grown by exactly one
  -- message of type MSG_DATA_RSB with the packet as body and the buffer is empty, or one more
  -- write to it has failed, the stream has grown by a proper prefix of that message and the
  -- packet stays in the buffer.
  pub process_tun-Tunnels :
      (f : ℕ) (m : Machine Vars)
      → IsTable m.vars.users
      → get_elem? m.vars.users i ≡ some u
      → is_reserved i ≡ false
      → u.status ≡ false
      → u.fd ≡ some c
      → get_elem? m.vars.bufs tun ≡ some []
      → k.read m.log tun buf_size ≡ some packet
      → ip_header_size ≤ length packet
      → u32_at packet daddr_offset ≡ slot_number i
      → Returns (λ _. Tunnels tun c packet m) (process_tun k (suc (suc f)) tun m)
  unfolding process_tun sent refused
  process_tun-Tunnels f m t at nr used held empty got long dest =
      let room = get_elem?-lt m.vars.bufs tun empty in
      rw (empty, got, lt→ltb tun (length m.vars.bufs) room)
        (mono
          (tun_loop-Tunnels f _ t at nr used held (get_elem?-set_self m.vars.bufs tun packet room)
            long dest)
          λ _ n d. record { table = d.table; others = d.others; outcome = d.outcome })
