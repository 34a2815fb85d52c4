-- ===== src/Relay/Silence.antt =====
-- keepLiveThread beside a client of which nothing is heard.
use over.Base.{
  ℕ, zero, suc, ◌+◌, ◌%◌, ◌<◌, ◌≡◌, ◌⊎◌, refl, sym, ap, ◌∙◌, true, false, inl, inr, some, [], ◌∷◌,
  ◌++◌, arith, ltb, ◌==◌, if◌then◌else◌, take, drop, get_elem?, modify, get_elem?-modify_self,
  append_assoc, append-nil, take-append-drop, Bool-cases,
}
use over.Kernel.{Fd, Bytes, Kernel, Log, WritesWithin, closes, sent, refused}
use over.Run.{Machine, Returns, returns, bind, mono}
use over.Io.Delivery.{Delivers-refused, write_all-Delivers}
use over.Wire.{header_bytes}
use over.Relay.State.{Vars, ClientConnection, client_at, change_client}
use over.Relay.Connection.{set_count, send_message, keep_live_round, keep_live_thread}

-- The heartbeats of the rounds from a count on.
unfoldable pub beats : ℕ → ℕ → Bytes
beats count zero = []
beats count (suc rounds) =
    let later = beats (count + 1) rounds in
    if (count + 1) % 20 == 0 then header_bytes 0 104 ++ later else later

-- The socket is closed last. It has taken these bytes, or, when a write to it has failed, a part of
-- them from the front.
pub data Closes (fd : Fd) (bytes : Bytes) (before : Log) (n : Machine Vars) : Type 0 where
  closing :
      (l : Log)
      → n.log ≡ closes fd ∷ l
      → sent fd n.log ≡ sent fd before ++ bytes
      → Closes fd bytes before n
  broken :
      (l : Log) (part behind : Bytes)
      → n.log ≡ closes fd ∷ l
      → part ++ behind ≡ bytes
      → sent fd n.log ≡ sent fd before ++ part
      → refused fd before < refused fd n.log
      → Closes fd bytes before n

module _ (k : Kernel) (fits : WritesWithin k) (client : ℕ) where
  -- The heartbeat of a round.
  pub beat :
      (c : ClientConnection) (m : Machine Vars)
      → get_elem? m.vars.clients client ≡ some c
      → Returns
          (λ r n.
            (n.vars ≡ m.vars)
            × (((r ≡ true)
                  × (sent c.socket_fd n.log ≡ sent c.socket_fd m.log ++ header_bytes 0 104)
                  × (refused c.socket_fd n.log ≡ refused c.socket_fd m.log))
                ⊎ ((r ≡ false)
                    × (q : ℕ) × (sent c.socket_fd n.log
                        ≡ sent c.socket_fd m.log ++ take q (header_bytes 0 104))
                    × (refused c.socket_fd n.log ≡ 1 + refused c.socket_fd m.log))))
          (send_message k client 104 0 [] m)
  unfolding send_message client_at
  beat c m at = rw at (
      bind (write_all-Delivers k fits c.socket_fd (header_bytes 0 104) m) λ r n d. elim d.outcome [
        | inl (e, s) ↦ rw e (returns (d.same, inl (refl, s, d.refusals ∙ rw e (omega arith))))
        | inr (e, (q, _, s)) ↦
            rw e (returns (d.same, inr (refl, q, s, Delivers-refused c.socket_fd _ _ m r n d e)))
      ])

  -- If write fails or takes between one byte and the whole of a block that is not empty,
  -- keepLiveThread beside a client of which nothing is heard returns within as many passes of
  -- its loop as its count is below 60, and one more; the last system call closes the socket,
  -- which has taken the heartbeats of the passes whose count is a multiple of 20, all of them,
  -- or, when a write to it has failed meanwhile, a part of them from the front.
  pub keep_live_thread-Closes :
      (rounds f : ℕ) (c : ClientConnection) (m : Machine Vars)
      → get_elem? m.vars.clients client ≡ some c
      → c.heart_beat_count + rounds ≡ 60
      → rounds < f
      → Returns
          (λ _ n. Closes c.socket_fd (beats c.heart_beat_count rounds) m.log n)
          (keep_live_thread k f client m)
  unfolding keep_live_thread keep_live_round client_at change_client set_count beats sent refused
  keep_live_thread-Closes rounds zero c m at sum fuel = absurd (omega arith)
  keep_live_thread-Closes zero (suc f) c m at sum fuel =
      let a : ltb c.heart_beat_count 60 ≡ false = ground arith in
      rw (at, a, at) (returns (closing m.log refl (sym (append-nil _))))
  keep_live_thread-Closes (suc rounds) (suc f) c m at sum fuel =
      let a : ltb c.heart_beat_count 60 ≡ true = ground arith in
      let next = set_count (c.heart_beat_count + 1) c in
      let m1 : Machine Vars = record m {
        vars = record (m.vars) {
          clients = modify (set_count (c.heart_beat_count + 1)) client m.vars.clients;
        };
      } in
      let at1 : get_elem? m1.vars.clients client ≡ some next =
        get_elem?-modify_self (set_count (c.heart_beat_count + 1)) client m.vars.clients at in
      rw (at, a)
        (elim (Bool-cases ((c.heart_beat_count + 1) % 20 == 0)) [
          | inr quiet ↦
              rw quiet (keep_live_thread-Closes rounds f next m1 at1 (omega arith) (omega arith))
          | inl due ↦ rw due (
              bind (beat next m1 at1) λ r n d.
                let at2 : get_elem? n.vars.clients client ≡ some next =
                  ap (λ v. get_elem? v.clients client) d.0 ∙ at1 in
                let later = beats (c.heart_beat_count + 1) rounds in
                elim d.1 [
                  | inl (e, s, good) ↦ rw e (
                      mono (keep_live_thread-Closes rounds f next n at2 (omega arith) (omega arith))
                        λ _ o. elim [
                          | closing l x z ↦ closing l x (
                              z
                              ∙ ap (λ b. b ++ later) s
                              ∙ append_assoc _ (header_bytes 0 104) later)
                          | broken l part behind x y z bad ↦
                              broken l (header_bytes 0 104 ++ part) behind x
                                (append_assoc (header_bytes 0 104) part behind
                                  ∙ ap (◌++◌ (header_bytes 0 104)) y)
                                (z
                                  ∙ ap (λ b. b ++ part) s
                                  ∙ append_assoc _ (header_bytes 0 104) part)
                                (omega (arith, bad, good))
                        ])
                  | inr (e, q, s, bad) ↦
                      rw (e, at2)
                        (returns (
                          broken n.log (take q (header_bytes 0 104))
                            (drop q (header_bytes 0 104) ++ later) refl
                            (sym (append_assoc (take q (header_bytes 0 104)) _ later)
                              ∙ ap (λ b. b ++ later) (take-append-drop q (header_bytes 0 104)))
                            s (omega (arith, bad))))
                ])
        ])
