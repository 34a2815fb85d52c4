-- ===== src/First/Handlers/Fates.antt =====
-- process_tun of the first version ends, whatever comes from the tun device.
use over.Base.{
  List, ℕ, suc, ◌+◌, ◌-◌, ◌<◌, ◌≡◌, ◌≢◌, refl, ap, ◌∙◌, inl, inr, Option, none, some, [], ◌++◌,
  arith, ltb, length, take, drop, get_elem?, drop-le, lt→ltb, ltb→lt, get_elem?-set_self,
  get_elem?-lt, find_index-some, Bool-cases, Option-cases, match_option,
}
use over.Kernel.{Fd, Bytes, Kernel, WritesWithin, sent, refused}
use over.Run.{Machine, Returns, returns, bind, mono, pure, ◌>>◌}
use over.Io.Delivery.{Delivers, Delivers-refused}
use over.Wire.{frame, u32_at}
use over.Server.State.{Vars, User, data_rsb, set_buf, buf_at, buf_size, user_at}
use over.Server.Pool.{search_by_addr, holds_addr}
use over.Server.Tun.{ip_header_size, daddr_offset, forward}
use over.Server.Tun.Delivery.{forward-Delivers}
use over.First.Handlers.{deliver, tun_loop, process_tun}

-- No stream has changed.
abbrev Quiet : Machine Vars → Machine Vars → Type 0
Quiet m n = (f : Fd) → sent f n.log ≡ sent f m.log

-- No stream but one has.
abbrev QuietBut : Fd → Machine Vars → Machine Vars → Type 0
QuietBut c m n = (f : Fd) → f ≢ c → sent f n.log ≡ sent f m.log

-- The entry with the packet's destination has this descriptor.
pub record Goes (packet : Bytes) (fd : Option Fd) (users : List User) : Type 0 where
  pub id : ℕ
  pub user : User
  pub found : search_by_addr (u32_at packet daddr_offset) users ≡ some id
  pub at : get_elem? users id ≡ some user
  pub own : user.fd ≡ fd

-- What becomes of the bytes in the buffer of the tun device: too few for a header, they wait; for an
-- address that no entry holds they are dropped; an entry without a descriptor refuses them; a client
-- gets them as one message, or only a part of it, when a write has failed, and then they stay.
pub data Fate (t : Fd) (packet : Bytes) (m n : Machine Vars) : Type 0 where
  waiting :
      length packet < ip_header_size
      → get_elem? n.vars.bufs t ≡ some packet
      → Quiet m n
      → Fate t packet m n
  dropped :
      search_by_addr (u32_at packet daddr_offset) m.vars.users ≡ none
      → get_elem? n.vars.bufs t ≡ some []
      → Quiet m n
      → Fate t packet m n
  unserved :
      Goes packet none m.vars.users
      → get_elem? n.vars.bufs t ≡ some packet
      → Quiet m n
      → Fate t packet m n
  passed :
      (c : Fd)
      → Goes packet (some c) m.vars.users
      → get_elem? n.vars.bufs t ≡ some []
      → sent c n.log ≡ sent c m.log ++ frame data_rsb packet
      → QuietBut c m n
      → Fate t packet m n
  broken :
      (c : Fd) (q : ℕ)
      → Goes packet (some c) m.vars.users
      → get_elem? n.vars.bufs t ≡ some packet
      → q < length (frame data_rsb packet)
      → sent c n.log ≡ sent c m.log ++ take q (frame data_rsb packet)
      → refused c n.log ≡ 1 + refused c m.log
      → QuietBut c m n
      → Fate t packet m n

pub record Settles (t : Fd) (packet : Bytes) (m n : Machine Vars) : Type 0 where
  pub table : n.vars.users ≡ m.vars.users
  pub fate : Fate t packet m n

module _ (k : Kernel) (fits : WritesWithin k) (t : Fd) (packet : Bytes) where
  -- The buffer is emptied, and the loop finds no header in it.
  empties :
      (f : ℕ) (n : Machine Vars)
      → t < length n.vars.bufs
      → Returns
          (λ _ o.
            (o.vars.users ≡ n.vars.users) × (o.log ≡ n.log) × (get_elem? o.vars.bufs t ≡ some []))
          ((set_buf t (drop (length packet) packet) >> tun_loop k (suc f) t) n)
  unfolding set_buf tun_loop buf_at
  empties f n room =
      let empty : drop (length packet) packet ≡ [] = drop-le (length packet) packet (omega arith) in
      let emptied = get_elem?-set_self n.vars.bufs t [] room in
      rw (empty, lt→ltb t _ room, emptied) (returns (refl, refl, emptied))

  module _ (f : ℕ) (m : Machine Vars) (at : get_elem? m.vars.bufs t ≡ some packet) where
    passes :
        (c : Fd) (goes : Goes packet (some c) m.vars.users) (r : Option ℕ) (n : Machine Vars)
        → Delivers c (frame data_rsb packet) (length packet) m r n
        → Returns
            (λ _. Settles t packet m)
            ((match_option r
                (pure {S = Vars} tt)
                (λ w. set_buf t (drop (length packet) packet) >> tun_loop k (suc f) t))
              n)
    passes c goes none n d = returns (record {
      table = ap (λ (v : Vars). v.users) d.same;
      fate = elim d.outcome [
        | inl (e, _) ↦ absurd (cc)
        | inr (e, (q, less, s)) ↦
            broken c q goes (ap (λ (v : Vars). get_elem? v.bufs t) d.same ∙ at) less s
              (Delivers-refused c (frame data_rsb packet) (length packet) m none n d e) d.others
      ];
    })
    passes c goes (some w) n d =
        let room : t < length n.vars.bufs = rw d.same (get_elem?-lt m.vars.bufs t at) in
        mono (empties f n room) λ _ o e. record {
          table = e.0 ∙ ap (λ (v : Vars). v.users) d.same;
          fate = elim d.outcome [
            | inr (x, _) ↦ absurd (cc)
            | inl (_, s) ↦
                passed c goes e.2 (ap (sent c) e.1 ∙ s) λ g ne. ap (sent g) e.1 ∙ d.others g ne
          ];
        }

    tun_loop-Settles : Returns (λ _. Settles t packet m) (tun_loop k (suc (suc f)) t m)
    unfolding tun_loop deliver buf_at user_at forward search_by_addr
    tun_loop-Settles = elim (Bool-cases (ltb (length packet) ip_header_size)) [
      | inl short ↦
          rw (at, short)
            (returns (record { table = refl; fate = waiting (ltb→lt _ _ short) at λ g. refl }))
      | inr long ↦ elim (Option-cases (search_by_addr (u32_at packet daddr_offset) m.vars.users)) [
        | inl lost ↦
            rw (at, long, lost)
              (mono (empties f m (get_elem?-lt m.vars.bufs t at))
                λ _ o e. record { table = e.0; fate = dropped lost e.2 λ g. ap (sent g) e.1 })
        | inr (id, held) ↦
            let first =
              find_index-some (holds_addr (u32_at packet daddr_offset)) m.vars.users id held in
            let goes : (o : Option Fd) → first.item.fd ≡ o → Goes packet o m.vars.users = λ o own.
              record { id = id; user = first.item; found = held; at = first.holds; own = own } in
            elim (Option-cases first.item.fd) [
              | inl nobody ↦
                  rw (at, long, held, first.holds, nobody)
                    (returns
                      (record { table = refl; fate = unserved (goes none nobody) at λ g. refl }))
              | inr (c, own) ↦
                  rw (at, long, held, first.holds, own)
                    (bind (forward-Delivers k fits c packet m) (passes c (goes (some c) own)))
            ]
      ]
    ]

-- If write fails or takes between one byte and the whole of a block that is not empty, and the
-- read of the tun device gives bytes, process_tun of the first version returns within two rounds
-- of its loop with the table as it was, and with the bytes that were in the buffer and the new
-- ones together: they wait in the buffer, when they are fewer than a header; they are gone, when
-- no entry holds the destination; they stay and no stream changes, when the entry that holds it
-- has no descriptor; otherwise the buffer is empty and that client has got exactly one message
-- with all of them, or one more write to the client has failed, they stay, and the client has
-- got a proper part of that message from the front; no other stream changes.
pub process_tun-Settles :
    (k : Kernel)
    → WritesWithin k
    → (f : ℕ) (t : Fd) (m : Machine Vars) (old bytes : Bytes) → get_elem? m.vars.bufs t ≡ some old
    → k.read m.log t (buf_size - length old) ≡ some bytes
    → Returns (λ _. Settles t (old ++ bytes) m) (process_tun k (suc (suc f)) t m)
unfolding process_tun sent refused set_buf buf_at
process_tun-Settles k fits f t m old bytes at got =
    let room = get_elem?-lt m.vars.bufs t at in
    rw (at, got, lt→ltb t _ room)
      (mono
        (tun_loop-Settles k fits t (old ++ bytes) f _
          (get_elem?-set_self m.vars.bufs t (old ++ bytes) room))
        λ _ n s. record {
          table = s.table;
          fate = elim s.fate [
            | waiting a b c ↦ waiting a b c
            | dropped a b c ↦ dropped a b c
            | unserved a b c ↦ unserved a b c
            | passed c a b d e ↦ passed c a b d e
            | broken c q a b d e x g ↦ broken c q a b d e x g
          ];
        })
