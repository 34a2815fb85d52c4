-- ===== src/Server/Client/Serving.antt =====
-- process_client of a client that owns an address and speaks the protocol: it ends, and goes on with
-- the bytes that it has not handled.
use over.Base.{
  ◌⊎◌, Bool, true, false, Option, if◌then◌else◌, not, ℕ, ◌+◌, ◌-◌, ◌<◌, ◌≡◌, ◌≢◌, refl, ap, ◌∙◌,
  inl, inr, some, List, [], ◌∷◌, ◌++◌, arith, ◌==◌, length, get_elem?, find_index, find_index-some,
  find_index-none, get_elem?-set_self, get_elem?-set_ne, get_elem?-lt, Bool-cases, Option-cases,
  lt→ltb, ==-refl,
}
use over.Kernel.{Fd, Bytes, Kernel, WritesWithin}
use over.Run.{and_then, pure, ◌>>=◌, Machine, Returns, returns, bind, mono}
use over.Io.Delivery.{Delivers, Fails, write_all-Delivers}
use over.Io.{write_all}
use over.Wire.{header_size, header_bytes}
use over.Server.State.{
  Vars, User, user_at, change_user, set_buf, buf_size, ip_req, ip_rsb, data_req, heartbeat, short,
}
use over.Server.Pool.{holds_fd, search_by_fd}
use over.Server.Pool.Owners.{owner, allocate_ip_addr-Allocates, owner-modify_same, not_owner}
use over.Server.Client.{
  dispatch, ip_request, data_request, keep_alive, process_client, hear, reply_text,
}
use over.Server.Client.Framing.{
  Message, frames, Fit, IsPartial, handle_messages, process_client-frames, received,
  received_buffer,
}

abbrev pub Owns : Fd → List User → Type 0
Owns c us = (i : ℕ) × (owner us i ≡ some c)

-- Why the handler leaves a message that it has not done with: the last system call was a write to the
-- client or to the tun device, which failed, or the table has no free entry.
pub data Stop (c t : Fd) (n : Machine Vars) : Type 0 where
  reply_failed : Fails c n.log → Stop c t n
  packet_failed : Fails t n.log → Stop c t n
  no_address :
      ((i : ℕ) (u : User) → get_elem? n.vars.users i ≡ some u → u.status ≡ false) → Stop c t n

-- The client still owns an address, no buffer has changed, and the result says whether to go on.
record Stays (c t : Fd) (m : Machine Vars) (r : Bool) (n : Machine Vars) : Type 0 where
  owns : Owns c n.vars.users
  bufs : n.vars.bufs ≡ m.vars.bufs
  stop : r ≡ false → Stop c t n

short-Fails :
    (fd : Fd) (buf : Bytes) (size : ℕ) (m : Machine Vars) (r : Option ℕ) (n : Machine Vars)
    → Delivers fd buf size m r n
    → short r size ≡ true
    → Fails fd n.log
short-Fails fd buf size m r n d cut = elim d.outcome [
  | inl (e, _) ↦ absurd (ground arith)
  | inr (e, _) ↦ d.last e
]

module _ (k : Kernel) (fits : WritesWithin k) (c t : Fd) where
  data_request-Stays :
      (body : Bytes) (m : Machine Vars)
      → Owns c m.vars.users
      → Returns (Stays c t m) (data_request k t body m)
  unfolding data_request
  data_request-Stays body m own = bind (write_all-Delivers k fits t body m) λ r n d.
      returns (record {
        owns = rw d.same own;
        bufs = ap (λ (v : Vars). v.bufs) d.same;
        stop = λ no. packet_failed (short-Fails t body (length body) m r n d (ground arith));
      })

  keep_alive-Stays :
      (m : Machine Vars) → Owns c m.vars.users → Returns (Stays c t m) (keep_alive k c m)
  unfolding keep_alive search_by_fd change_user hear
  keep_alive-Stays m (i, own) = elim (Option-cases (find_index (holds_fd c) m.vars.users)) [
    | inl e ↦ absurd (not_owner c m.vars.users i (find_index-none _ m.vars.users e i) own)
    | inr (id, e) ↦
        let first = find_index-some _ m.vars.users id e in
        rw e (
          returns (record {
            owns = (
              i,
              owner-modify_same (hear (k.time m.log)) id m.vars.users first.item first.holds refl i
                  ∙ own,
            );
            bufs = refl;
            stop = λ no. absurd (cc);
          }))
  ]

  -- The reply, to a client that has just been given an entry.
  reply-Stays :
      (text : Bytes) (m n : Machine Vars)
      → Owns c n.vars.users
      → n.vars.bufs ≡ m.vars.bufs
      → Returns (Stays c t m) (
          and_then (write_all k c (header_bytes (length text + header_size) ip_rsb) n) λ head.
            if short head header_size
            then pure false
            else (write_all k c text >>= λ body. pure (not (short body (length text)))))
  unfolding header_bytes
  reply-Stays text m n own bufs =
      bind (write_all-Delivers k fits c (header_bytes (length text + header_size) ip_rsb) n)
        λ r o d. elim (Bool-cases (short r header_size)) [
          | inl cut ↦ rw cut (
              returns (record {
                owns = rw d.same own;
                bufs = ap (λ (v : Vars). v.bufs) d.same ∙ bufs;
                stop = λ no.
                    reply_failed (
                      short-Fails c (header_bytes (length text + header_size) ip_rsb) _ n r o d
                        cut);
              }))
          | inr whole ↦ rw whole (
              bind (write_all-Delivers k fits c text o) λ q p g. returns (record {
                owns = rw (g.same, d.same) own;
                bufs = ap (λ (v : Vars). v.bufs) (g.same ∙ d.same) ∙ bufs;
                stop = λ no. reply_failed (short-Fails c text (length text) o q p g (ground arith));
              }))
        ]

  ip_request-Stays :
      (m : Machine Vars) → Owns c m.vars.users → Returns (Stays c t m) (ip_request k c m)
  unfolding ip_request user_at
  ip_request-Stays m (i, own) = bind (allocate_ip_addr-Allocates k c m) λ r n a. elim a [
    | inl (e, same, full) ↦
        rw (e, same)
          (returns (record { owns = (i, own); bufs = refl; stop = λ no. no_address full }))
    | inr (id, e, _, owners, bufs) ↦
        let mine : owner n.vars.users id ≡ some c = owners id ∙ rw (==-refl id) refl in
        elim (Option-cases (get_elem? n.vars.users id)) [
          | inl out ↦ absurd (ground arith)
          | inr (u, at) ↦ rw (e, at) (reply-Stays (reply_text u) m n (id, mine) bufs)
        ]
  ]

  dispatch-Stays :
      (type : ℕ) (body : Bytes) (m : Machine Vars)
      → Owns c m.vars.users
      → Returns (Stays c t m) (dispatch k c t type body m)
  unfolding dispatch
  dispatch-Stays type body m own = elim (Bool-cases (type == ip_req)) [
    | inl a ↦ rw a (ip_request-Stays m own)
    | inr a ↦ elim (Bool-cases (type == data_req)) [
      | inl b ↦ rw (a, b) (data_request-Stays body m own)
      | inr b ↦ elim (Bool-cases (type == heartbeat)) [
        | inl h ↦ rw (a, b, h) (keep_alive-Stays m own)
        | inr h ↦
            rw (a, b, h) (returns (record { owns = own; bufs = refl; stop = λ no. absurd (cc) }))
      ]
    ]
  ]

-- What a run has made of the messages in the client's buffer: some of them, from the front, have
-- been handled, the others are still there, for a reason, and no other buffer has changed.
pub record Serves (c t : Fd) (ms : List Message) (rest : Bytes) (m n : Machine Vars) : Type 0 where
  pub owns : Owns c n.vars.users
  pub done : List Message
  pub left : List Message
  pub split : done ++ left ≡ ms
  pub reason : (left ≡ []) ⊎ Stop c t n
  pub buffer : get_elem? n.vars.bufs c ≡ some (frames left ++ rest)
  pub others : (d : Fd) → c ≢ d → get_elem? n.vars.bufs d ≡ get_elem? m.vars.bufs d

module _ (k : Kernel) (fits : WritesWithin k) (c t : Fd) (rest : Bytes) where
  handle_messages-Serves :
      (ms : List Message) (m : Machine Vars)
      → Owns c m.vars.users
      → get_elem? m.vars.bufs c ≡ some (frames ms ++ rest)
      → Returns (λ _ n. Serves c t ms rest m n) (handle_messages k c t rest ms m)
  unfolding handle_messages set_buf
  handle_messages-Serves [] m own at = returns (record {
    owns = own;
    done = [];
    left = [];
    split = refl;
    reason = inl refl;
    buffer = at;
    others = λ d ne. refl;
  })
  handle_messages-Serves (x ∷ xs) m own at =
      bind (dispatch-Stays k fits c t x.type x.body m own) λ more n d.
        let here : get_elem? n.vars.bufs c ≡ some (frames (x ∷ xs) ++ rest) =
          ap (λ b. get_elem? b c) d.bufs ∙ at in
        elim (Bool-cases more) [
          | inr stop ↦ rw stop (
              returns (record {
                owns = d.owns;
                done = [];
                left = x ∷ xs;
                split = refl;
                reason = inr (d.stop stop);
                buffer = here;
                others = λ e ne. ap (λ b. get_elem? b e) d.bufs;
              }))
          | inl go ↦
              let next = frames xs ++ rest in
              let lt : c < length n.vars.bufs = get_elem?-lt n.vars.bufs c here in
              rw (go, lt→ltb c (length n.vars.bufs) lt)
                (mono
                  (handle_messages-Serves xs _ d.owns (get_elem?-set_self n.vars.bufs c next lt))
                  λ _ o s. record {
                    owns = s.owns;
                    done = x ∷ s.done;
                    left = s.left;
                    split = ap (◌∷◌ x) s.split;
                    reason = s.reason;
                    buffer = s.buffer;
                    others = λ e ne.
                        s.others e ne
                        ∙ get_elem?-set_ne n.vars.bufs c e next ne
                        ∙ ap (λ b. get_elem? b e) d.bufs;
                  })
        ]

  -- If write fails or takes between one byte and the whole of a block that is not empty, the
  -- client owns an address, and what its buffer holds and the bytes that a read gives, one at
  -- least, are together whole messages shorter than 2^31 bytes with an unfinished one behind
  -- them, then process_client returns, given a round for each message and one more; the client
  -- still owns an address, its buffer holds the unfinished message, and before it nothing, or,
  -- when the handler's last system call was a write to the client or to the tun device that
  -- failed, or the table has no free entry, the messages from some point on; no other buffer has
  -- changed.
  pub process_client-Serves :
      (ms : List Message) (old bytes : Bytes) (f : ℕ) (m : Machine Vars)
      → Owns c m.vars.users
      → get_elem? m.vars.bufs c ≡ some old
      → k.read m.log c (buf_size - length old) ≡ some bytes
      → bytes ≢ []
      → old ++ bytes ≡ frames ms ++ rest
      → Fit ms
      → IsPartial rest
      → length ms < f
      → Returns (λ _ n. Serves c t ms rest m n) (process_client k f c t m)
  process_client-Serves ms old bytes f m own held read filled joins fit partial fuel =
      let all = frames ms ++ rest in
      rw (process_client-frames k c t rest ms old bytes f m held read filled joins fit partial fuel)
        (mono
          (handle_messages-Serves ms (received k c t rest all bytes m) own
            (received_buffer k c t rest all bytes old m held))
          λ _ n s. record {
            owns = s.owns;
            done = s.done;
            left = s.left;
            split = s.split;
            reason = s.reason;
            buffer = s.buffer;
            others = λ d ne. s.others d ne ∙ get_elem?-set_ne m.vars.bufs c d all ne;
          })
