-- ===== src/Server/Tun/Unknown.antt =====
-- A packet for an address that no client holds.
use over.Base.{
  ℕ, zero, suc, ◌≤◌, ◌≡◌, refl, none, some, [], length, get_elem?, le→ltb, lt→ltb,
  get_elem?-set_self, get_elem?-lt,
}
use over.Kernel.{Fd, Bytes, Kernel}
use over.Run.{Machine, spent}
use over.Wire.{u32_at}
use over.Server.State.{Vars, buf_size}
use over.Server.Pool.{search_by_addr}
use over.Server.Tun.{tun_loop, process_tun, ip_header_size, daddr_offset}

module _ (k : Kernel) (tun : Fd) (packet : Bytes) (long : ip_header_size ≤ length packet) where
  pub tun_loop_unknown :
      (f : ℕ) (m : Machine Vars)
      → get_elem? m.vars.bufs tun ≡ some packet
      → search_by_addr (u32_at packet daddr_offset) m.vars.users ≡ none
      → tun_loop k f tun m ≡ spent
  unfolding tun_loop
  tun_loop_unknown zero m e lost = refl
  tun_loop_unknown (suc f) m e lost = rw (e, le→ltb _ _ long, lost) (tun_loop_unknown f m e lost)

  -- With an empty tun buffer, process_tun does not return from a packet of at least a header's
  -- length whose destination no entry holds: no number of rounds of its loop is enough.
  pub process_tun_unknown :
      (f : ℕ) (m : Machine Vars)
      → get_elem? m.vars.bufs tun ≡ some []
      → k.read m.log tun buf_size ≡ some packet
      → search_by_addr (u32_at packet daddr_offset) m.vars.users ≡ none
      → process_tun k f tun m ≡ spent
  unfolding process_tun
  process_tun_unknown f m empty got lost =
      let room = get_elem?-lt m.vars.bufs tun empty in
      rw (empty, got, lt→ltb tun (length m.vars.bufs) room)
        (tun_loop_unknown f _ (get_elem?-set_self m.vars.bufs tun packet room) lost)
