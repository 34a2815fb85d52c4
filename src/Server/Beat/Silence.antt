-- ===== src/Server/Beat/Silence.antt =====
-- One round of process_heartbeat at an entry that a client holds.
use over.Base.{
  ◌+◌, ◌⊎◌, ◌≢◌, length, ℕ, ◌-◌, ◌<◌, ◌≤◌, ◌≡◌, inl, inr, refl, sym, ap, ◌∙◌, Bool, true, false,
  none, some, List, [], ◌∷◌, ◌++◌, arith, ◌==◌, ltb, if◌then◌else◌, take, get_elem?, modify,
  get_elem?-modify_self, Bool-cases, lt→ltb, le→ltb, append-nil,
}
use over.Kernel.{refused, Bytes, epoll_dels, Fd, Kernel, WritesWithin, Log, sent, closes, times}
use over.Run.{Machine, Returns, returns, bind, pure}
use over.Io.Delivery.{write_all-Delivers, Delivers-refused}
use over.Wire.{header_bytes, header_size}
use over.Server.State.{Vars, User, heartbeat, heartbeat_interval, heartbeat_timeout}
use over.Server.Pool.{free_client_fd}
use over.Server.Pool.Owners.{owner, deallocate_ip_addr-Deallocates, owner-modify_same}
use over.Server.Beat.{beat, send_beat, beat_round}

abbrev pub due : ℕ → User → Bool
due now u = ltb heartbeat_interval (now - u.last_sent)

-- The entry after the round, unless the client is dropped.
abbrev pub beaten : ℕ → User → User
beaten now u = if due now u then beat now u else u

-- The heartbeat, if one is due.
abbrev pub due_bytes : ℕ → User → Bytes
due_bytes now u = if due now u then header_bytes header_size heartbeat else []

-- The entry is noted to have had its heartbeat if one was due, nobody's address changes hands, and
-- the client's stream grows by that heartbeat, or by a part of it when a write has failed.
pub record Beats (i : ℕ) (fd : Fd) (now : ℕ) (u : User) (m n : Machine Vars) : Type 0 where
  pub entry : get_elem? n.vars.users i ≡ some (beaten now u)
  pub owners : (j : ℕ) → owner n.vars.users j ≡ owner m.vars.users j
  pub stream :
      (sent fd n.log ≡ sent fd m.log ++ due_bytes now u)
      ⊎ ((part : ℕ) × (part < length (due_bytes now u))
          × (sent fd n.log ≡ sent fd m.log ++ take part (due_bytes now u))
          × (refused fd n.log ≡ 1 + refused fd m.log))

module _ (k : Kernel) (fits : WritesWithin k) (i : ℕ) (fd : Fd) (u : User) where
  same_owner :
      (now : ℕ) (us : List User)
      → get_elem? us i ≡ some u
      → (j : ℕ) → owner (modify (beat now) i us) j ≡ owner us j
  unfolding beat
  same_owner now us at j = owner-modify_same (beat now) i us u at refl j

  send_beat-Beats :
      (now : ℕ) (m : Machine Vars)
      → get_elem? m.vars.users i ≡ some u
      → due now u ≡ true
      → Returns (λ _. Beats i fd now u m) (send_beat k i fd now m)
  unfolding send_beat
  send_beat-Beats now m at d =
      bind (write_all-Delivers k fits fd (header_bytes header_size heartbeat) m) λ r n del.
        returns (record {
          entry = rw (d, del.same) (get_elem?-modify_self (beat now) i m.vars.users at);
          owners = λ j. rw del.same (same_owner now m.vars.users at j);
          stream = rw d (elim del.outcome [
            | inl (e, s) ↦ inl s
            | inr (e, (q, less, s)) ↦ inr (q, less, s, Delivers-refused fd _ _ m r n del e)
          ]);
        })

  maybe_beat-Beats :
      (now : ℕ) (m : Machine Vars)
      → get_elem? m.vars.users i ≡ some u
      → Returns (λ _. Beats i fd now u m) ((if due now u then send_beat k i fd now else pure tt) m)
  maybe_beat-Beats now m at = elim (Bool-cases (due now u)) [
    | inl d ↦ rw d (send_beat-Beats now m at d)
    | inr d ↦ rw d (
        returns (record {
          entry = rw d at;
          owners = λ j. refl;
          stream = inl (rw d (sym (append-nil _)));
        }))
  ]

  -- The heartbeat that the server sends does not count as one from the client.
  recved_same : (now : ℕ) → (beaten now u).last_recved ≡ u.last_recved
  unfolding beat
  recved_same now = ground arith

  round :
      (P : Machine Vars → Type 0) (m : Machine Vars)
      → get_elem? m.vars.users i ≡ some u
      → u.fd ≡ some fd
      → u.status ≡ false
      → ((n : Machine Vars)
          → Beats i fd (k.time m.log) u m n
          → Returns
              (λ _. P)
              ((if ltb heartbeat_timeout (k.time m.log - u.last_recved)
                  then free_client_fd k fd
                  else pure tt)
                n))
      → Returns (λ _. P) (beat_round k i m)
  unfolding beat_round sent refused
  round P m at held used next =
      let now = k.time m.log in
      rw (at, held, used, at)
        (bind (maybe_beat-Beats now (record m { log = times now ∷ m.log }) at) λ _ n d.
          rw (d.entry, recved_same now)
            (next n (record { entry = d.entry; owners = d.owners; stream = d.stream })))

  -- In the heartbeat round of an entry that a client holds, if the client was heard of within
  -- the last 60 seconds, nobody's address changes hands; if its last heartbeat from the server
  -- is more than 20 seconds old the entry notes the new time and the client's stream grows by
  -- one whole heartbeat, or by a proper part of it from its front with one more failed write to
  -- it, and otherwise neither changes.
  pub beat_round-Beats :
      (m : Machine Vars)
      → get_elem? m.vars.users i ≡ some u
      → u.fd ≡ some fd
      → u.status ≡ false
      → k.time m.log - u.last_recved ≤ heartbeat_timeout
      → Returns (λ _. Beats i fd (k.time m.log) u m) (beat_round k i m)
  beat_round-Beats m at held used alive =
      round (Beats i fd (k.time m.log) u m) m at held used
        λ n d. rw (le→ltb heartbeat_timeout _ alive) (returns d)

  -- In the heartbeat round of an entry that a client holds, if the client was last heard of
  -- more than 60 seconds ago and epoll lets its descriptor go, the first address that the client
  -- owns is free afterwards, no other address changes hands, and the last system call closes the
  -- descriptor.
  pub beat_round_silent :
      (m : Machine Vars)
      → get_elem? m.vars.users i ≡ some u
      → u.fd ≡ some fd
      → u.status ≡ false
      → heartbeat_timeout < k.time m.log - u.last_recved
      → ((l : Log) → k.epoll_del l fd ≡ true)
      → Returns
          (λ _ n.
            (h : ℕ) × (owner m.vars.users h ≡ some fd)
            × ((j : ℕ) → j < h → owner m.vars.users j ≢ some fd)
            × ((j : ℕ) → owner n.vars.users j ≡ (if h == j then none else owner m.vars.users j))
            × ((l : Log) × (n.log ≡ closes fd ∷ l)))
          (beat_round k i m)
  unfolding free_client_fd
  beat_round_silent m at held used silent removed = round _ m at held used λ n d.
      rw (lt→ltb heartbeat_timeout _ silent, removed n.log)
        (bind (deallocate_ip_addr-Deallocates k fd (record n { log = epoll_dels fd true ∷ n.log }))
          λ r o e. elim e [
            | inl (_, _, never) ↦ absurd (never i (d.owners i ∙ ground arith))
            | inr (h, _, own, first, left, _) ↦ returns (
              h,
              sym (d.owners h) ∙ own,
              (λ j less same. first j less (d.owners j ∙ same)),
              λ j. left j ∙ ap (λ x. if h == j then none else x) (d.owners j),
              (_, refl),
            )
          ])
