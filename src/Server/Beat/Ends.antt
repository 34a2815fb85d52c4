-- ===== src/Server/Beat/Ends.antt =====
-- process_heartbeat over the whole table.
use over.Base.{
  ℕ, zero, suc, ◌+◌, ◌-◌, ◌<◌, ◌≤◌, ◌≡◌, ◌≢◌, ◌⊎◌, inl, inr, refl, sym, ap, ◌∙◌, false, none, some,
  arith, ◌==◌, ltb, if◌then◌else◌, length, get_elem?, get_elem?-some, get_elem?-lt, ◌∷◌,
  length-modify, find_index, find_index-some, Bool-cases, Option-cases,
}
use over.Kernel.{Fd, Kernel, WritesWithin, sent, times}
use over.Run.{Machine, Returns, returns, bind, mono, pure}
use over.Io.Delivery.{write_all-Delivers}
use over.Wire.{header_bytes, header_size}
use over.Server.State.{
  Vars, User, user_at, change_user, client_num, heartbeat, heartbeat_interval, heartbeat_timeout,
}
use over.Server.Pool.{holds_fd, vacate, deallocate_ip_addr, epoll_remove_fd, free_client_fd}
use over.Server.Pool.Owners.{owner, owner-modify, owner-modify_same}
use over.Server.Beat.{beat, send_beat, check_user, beat_round, beat_loop, process_heartbeat}

-- Every address keeps its owner or is free; only owners have got anything.
pub record Ends (m n : Machine Vars) : Type 0 where
  pub size : length n.vars.users ≡ length m.vars.users
  pub bufs : n.vars.bufs ≡ m.vars.bufs
  pub owners :
      (j : ℕ) → (owner n.vars.users j ≡ owner m.vars.users j) ⊎ (owner n.vars.users j ≡ none)
  pub others : (f : Fd) → ((j : ℕ) → owner m.vars.users j ≢ some f) → sent f n.log ≡ sent f m.log

Ends-refl : (m : Machine Vars) → Ends m m
Ends-refl m = record { size = refl; bufs = refl; owners = λ j. inl refl; others = λ f away. refl }

Ends-trans : (m n o : Machine Vars) → Ends m n → Ends n o → Ends m o
Ends-trans m n o a b = record {
  size = b.size ∙ a.size;
  bufs = b.bufs ∙ a.bufs;
  owners = λ j. elim (b.owners j) [
    | inr free ↦ inr free
    | inl same ↦ elim (a.owners j) [ inl e ↦ inl (same ∙ e) | inr free ↦ inr (same ∙ free) ]
  ];
  others = λ f away.
      b.others f
        (λ j own. elim (a.owners j) [ inl e ↦ away j (sym e ∙ own) | inr free ↦ ground arith ])
      ∙ a.others f away;
}

module _ (k : Kernel) (fits : WritesWithin k) where
  deallocate-Ends : (fd : Fd) (m : Machine Vars) → Returns (λ _. Ends m) (deallocate_ip_addr k fd m)
  unfolding deallocate_ip_addr change_user vacate
  deallocate-Ends fd m = elim (Option-cases (find_index (holds_fd fd) m.vars.users)) [
    | inl e ↦ rw e (returns (Ends-refl m))
    | inr (i, e) ↦
        let first = find_index-some _ m.vars.users i e in
        rw e (
          returns (record {
            size = length-modify vacate i m.vars.users;
            bufs = refl;
            owners = λ j. elim (Bool-cases (i == j)) [
              | inl here ↦ inr (
                  owner-modify vacate none i m.vars.users first.item first.holds refl j
                  ∙ rw here refl)
              | inr other ↦ inl (
                  owner-modify vacate none i m.vars.users first.item first.holds refl j
                  ∙ rw other refl)
            ];
            others = λ f away. refl;
          }))
  ]

  free-Ends : (fd : Fd) (m : Machine Vars) → Returns (λ _. Ends m) (free_client_fd k fd m)
  unfolding free_client_fd epoll_remove_fd sent
  free-Ends fd m = elim (Bool-cases (k.epoll_del m.log fd)) [
    | inr kept ↦ rw kept (
        returns (record { size = refl; bufs = refl; owners = λ j. inl refl; others = λ f h. refl }))
    | inl gone ↦ rw gone (
        bind (deallocate-Ends fd _) λ r n d.
          returns (record { size = d.size; bufs = d.bufs; owners = d.owners; others = d.others }))
  ]

  -- A heartbeat to the owner of an entry.
  send_beat-Ends :
      (i now : ℕ) (fd : Fd) (u : User) (m : Machine Vars)
      → get_elem? m.vars.users i ≡ some u
      → u.fd ≡ some fd
      → u.status ≡ false
      → Returns (λ _. Ends m) (send_beat k i fd now m)
  unfolding send_beat change_user beat
  send_beat-Ends i now fd u m at held used =
      bind (write_all-Delivers k fits fd (header_bytes header_size heartbeat) m) λ r n d.
        returns (record {
          size = rw d.same (length-modify (beat now) i m.vars.users);
          bufs = ap (λ v. v.bufs) d.same;
          owners = λ j. inl (rw d.same (owner-modify_same (beat now) i m.vars.users u at refl j));
          others = λ f away. d.others f λ e. away i (rw (at, used, held) (ap some (sym e)));
        })

  check_user-Ends :
      (i : ℕ) (fd : Fd) (u : User) (m : Machine Vars)
      → get_elem? m.vars.users i ≡ some u
      → u.fd ≡ some fd
      → u.status ≡ false
      → Returns (λ _. Ends m) (check_user k i fd m)
  unfolding check_user user_at sent
  check_user-Ends i fd u m at held used =
      let now = k.time m.log in
      let timed : Machine Vars = record m { log = times now ∷ m.log } in
      let beaten : Returns (λ _. Ends m)
          ((if ltb heartbeat_interval (now - u.last_sent) then send_beat k i fd now else pure tt)
            timed) =
        elim (Bool-cases (ltb heartbeat_interval (now - u.last_sent))) [
          | inl due ↦ rw due (
              mono (send_beat-Ends i now fd u timed at held used) λ _ n d. record {
                size = d.size;
                bufs = d.bufs;
                owners = d.owners;
                others = d.others;
              })
          | inr early ↦ rw early (
              returns (record {
                size = refl;
                bufs = refl;
                owners = λ j. inl refl;
                others = λ f away. refl;
              }))
        ] in
      rw at (
        bind beaten λ _ n d.
          let (v, there) =
            get_elem?-some n.vars.users i (omega (arith, d.size, get_elem?-lt m.vars.users i at)) in
          elim (Bool-cases (ltb heartbeat_timeout (now - v.last_recved))) [
            | inr heard ↦ rw (there, heard) (returns d)
            | inl silent ↦ rw (there, silent) (mono (free-Ends fd n) λ _ o e. Ends-trans m n o d e)
          ])

  beat_round-Ends :
      (i : ℕ) (m : Machine Vars)
      → i < length m.vars.users
      → Returns (λ _. Ends m) (beat_round k i m)
  unfolding beat_round user_at
  beat_round-Ends i m within =
      let (u, at) = get_elem?-some m.vars.users i within in
      elim (Option-cases u.fd) [
        | inl nobody ↦ rw (at, nobody) (returns (Ends-refl m))
        | inr (fd, held) ↦ elim (Bool-cases u.status) [
          | inl free ↦ rw (at, held, free) (returns (Ends-refl m))
          | inr used ↦ rw (at, held, used) (check_user-Ends i fd u m at held used)
        ]
      ]

  beat_loop-Ends :
      (n i : ℕ) (m : Machine Vars)
      → n + i ≤ length m.vars.users
      → Returns (λ _. Ends m) (beat_loop k n i m)
  unfolding beat_loop
  beat_loop-Ends zero i m within = returns (Ends-refl m)
  beat_loop-Ends (suc n) i m within = bind (beat_round-Ends i m (omega arith)) λ _ o d.
      mono (beat_loop-Ends n (i + 1) o (omega (arith, d.size))) λ _ p e. Ends-trans m o p d e

  -- With 256 entries in the table, if write fails or takes between one byte and the whole of a
  -- block that is not empty, process_heartbeat returns: the table has as many entries as before,
  -- no buffer has changed, every address has the owner that it had or none, and no descriptor
  -- but those that owned an address has taken a byte.
  pub process_heartbeat-Ends :
      (m : Machine Vars)
      → length m.vars.users ≡ client_num
      → Returns (λ _. Ends m) (process_heartbeat k m)
  unfolding process_heartbeat
  process_heartbeat-Ends m size = beat_loop-Ends client_num 0 m (omega (arith, size))
