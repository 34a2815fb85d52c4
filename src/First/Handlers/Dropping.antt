-- ===== src/First/Handlers/Dropping.antt =====
-- Where the first version differs: a packet for nobody, and the end of a client's stream.
use over.Base.{
  List, set, ap, ℕ, zero, suc, ◌-◌, ◌≤◌, ◌≡◌, refl, none, some, [], ◌∷◌, arith, length, drop,
  get_elem?, drop-le, get_elem?-set_self, get_elem?-lt, length-set, lt→ltb, le→ltb, append-nil,
}
use over.Kernel.{Fd, Bytes, Kernel, reads}
use over.Run.{Machine, Returns, returns}
use over.Wire.{u32_at}
use over.Server.State.{Vars, buf_at, set_buf, buf_size}
use over.Server.Pool.{search_by_addr}
use over.Server.Tun.{ip_header_size, daddr_offset}
use over.Server.Client.Framing.{IsPartial, partial_stops}
use over.First.Handlers.{deliver, tun_loop, process_tun, process_client}

-- A write of what is there already.
same_bufs :
    (bufs : List Bytes) (c : Fd) (b : Bytes) → get_elem? bufs c ≡ some b → set bufs c b ≡ bufs
same_bufs [] c b h = refl
same_bufs (x ∷ xs) zero b h = cc
same_bufs (x ∷ xs) (suc c) b h = ap (◌∷◌ x) (same_bufs xs c b h)

module _ (k : Kernel) where
  -- With an empty tun buffer, process_tun of the first version returns from a packet of at
  -- least a header's length whose destination no entry holds after two rounds of its loop, with
  -- the table as it was, the buffer empty, and no system call but the read.
  pub process_tun_drops :
      (f : ℕ) (t : Fd) (m : Machine Vars) (packet : Bytes)
      → get_elem? m.vars.bufs t ≡ some []
      → k.read m.log t buf_size ≡ some packet
      → ip_header_size ≤ length packet
      → search_by_addr (u32_at packet daddr_offset) m.vars.users ≡ none
      → Returns
          (λ _ n.
            (n.vars.users ≡ m.vars.users)
            × (get_elem? n.vars.bufs t ≡ some [])
            × (n.log ≡ reads t (some packet) ∷ m.log))
          (process_tun k (suc (suc f)) t m)
  unfolding process_tun tun_loop deliver buf_at set_buf
  process_tun_drops f t m packet empty got long lost =
      let room = get_elem?-lt m.vars.bufs t empty in
      let gone : drop (length packet) packet ≡ [] = drop-le (length packet) packet (omega arith) in
      let size = length-set m.vars.bufs t packet in
      let filled = get_elem?-set_self m.vars.bufs t packet room in
      let emptied =
        get_elem?-set_self (set m.vars.bufs t packet) t [] (omega (arith, room, size)) in
      rw
        (
          empty,
          got,
          lt→ltb t (length m.vars.bufs) room,
          filled,
          le→ltb _ _ long,
          lost,
          size,
          lt→ltb t (length m.vars.bufs) room,
          gone,
          emptied,
        )
        (returns (refl, emptied, refl))

  -- At the end of a client's stream, with no whole message in its buffer, process_client of the
  -- first version returns with no variable changed and no system call but the read.
  pub process_client_at_end :
      (f : ℕ) (c t : Fd) (m : Machine Vars) (rest : Bytes)
      → IsPartial rest
      → get_elem? m.vars.bufs c ≡ some rest
      → k.read m.log c (buf_size - length rest) ≡ some []
      → Returns
          (λ _ n. (n.vars ≡ m.vars) × (n.log ≡ reads c (some []) ∷ m.log))
          (process_client k (suc f) c t m)
  unfolding process_client buf_at set_buf
  process_client_at_end f c t m rest partial at ended =
      let room = get_elem?-lt m.vars.bufs c at in
      rw
        (
          at,
          ended,
          append-nil rest,
          lt→ltb c (length m.vars.bufs) room,
          same_bufs m.vars.bufs c rest at,
          partial_stops k c t rest f (record m { log = reads c (some []) ∷ m.log }) partial at,
        )
        (returns (refl, refl))
