-- ===== src/Relay/Sending.antt =====
-- What sendMessage does to its client's stream.
use over.Base.{
  subst, ℕ, ◌+◌, ◌-◌, ◌≤◌, ◌≡◌, refl, sym, ap, ◌∙◌, true, false, some, ◌++◌, arith, ltb, inl, inr,
  length, take, drop, take-length, take-append-drop, append_assoc, get_elem?, match_option,
}
use over.Kernel.{refused, Fd, Bytes, Kernel, WritesWithin, sent}
use over.Run.{and_then, pure, Machine, Returns, returns, bind}
use over.Io.{write_all}
use over.Io.Delivery.{Delivers, Delivers-refused, Delivers-taken, Sends, write_all-Delivers}
use over.Wire.{frame, header_bytes, header_size}
use over.Relay.State.{Vars, ClientConnection, client_at}
use over.Relay.Connection.{data_size, has_body, send_body, send_message}

module _ (k : Kernel) (fits : WritesWithin k) (fd : Fd) where
  -- A header that was sent, and then a body in one more call of write_all.
  then_body :
      (head body : Bytes) (m n : Machine Vars)
      → Delivers fd head (length head) m (some (length head)) n
      → sent fd n.log ≡ sent fd m.log ++ head
      → Returns
          (Sends refused fd (head ++ body) m)
          (and_then (write_all k fd body n) (λ r. pure (match_option r false (λ x. true))))
  then_body head body m n d s = bind (write_all-Delivers k fits fd body n) λ r o e.
      returns (record {
        same = e.same ∙ d.same;
        others = λ f ne. e.others f ne ∙ d.others f ne;
        stopped = λ bad. elim e.outcome [
          | inl (done, _) ↦ absurd (ground arith)
          | inr (stop, _) ↦ omega (arith, Delivers-refused fd body _ n r o e stop, d.refusals)
        ];
        went_on = λ good. elim e.outcome [
          | inl (done, _) ↦ omega (arith, Delivers-taken fd body _ n r o e done, d.refusals)
          | inr (stop, _) ↦ absurd (ground arith)
        ];
        outcome = elim e.outcome [
          | inl (done, t) ↦ inl (rw done refl, t ∙ ap (λ x. x ++ body) s ∙ append_assoc _ head body)
          | inr (stop, (q, less, t)) ↦ inr (
            rw stop refl,
            head ++ take q body,
            drop q body,
            append_assoc head _ _ ∙ ap (◌++◌ head) (take-append-drop q body),
            t ∙ ap (λ x. x ++ take q body) s ∙ append_assoc _ head _,
          )
        ];
      })

  -- If write fails or takes between one byte and the whole of a block that is not empty,
  -- sendMessage of a type with a body, of at most the size of the array, returns, changes no
  -- variable and no other stream, and either reports success and the client's stream has grown
  -- by exactly that message, or reports failure after a part of it from the front.
  pub send_message-Sends :
      (client type : ℕ) (c : ClientConnection) (body : Bytes) (m : Machine Vars)
      → get_elem? m.vars.clients client ≡ some c
      → c.socket_fd ≡ fd
      → has_body type ≡ true
      → length body ≤ data_size
      → Returns
          (Sends refused fd (frame type body) m)
          (send_message k client type (length body + header_size) body m)
  unfolding send_message client_at send_body frame
  send_message-Sends client type c body m at own bodied small =
      let head = header_bytes (length body + header_size) type in
      let a : ltb (data_size + header_size) (length body + header_size) ≡ false = ground arith in
      let size : length body + header_size - header_size ≡ length body = omega arith in
      rw (at, own, bodied, a, size, take-length body)
        (bind (write_all-Delivers k fits fd head m) λ r n d. elim d.outcome [
          | inl (e, s) ↦
              rw e
                (then_body head body m n (subst (λ x. Delivers fd head (length head) m x n) e d) s)
          | inr (e, (q, less, s)) ↦ rw e (
              returns (record {
                same = d.same;
                others = d.others;
                stopped = λ bad. omega (arith, Delivers-refused fd head _ m r n d e);
                went_on = λ good. absurd (cc);
                outcome = inr (
                  refl,
                  take q head,
                  drop q head ++ body,
                  sym (append_assoc (take q head) (drop q head) body)
                      ∙ ap (λ x. x ++ body) (take-append-drop q head),
                  s,
                );
              }))
        ])
