-- ===== src/Kernel/Stub.antt =====
-- A system for concrete runs: it reads these bytes and no others, takes all that is written, and
-- never fails.
use over.Base.{
  ℕ, zero, suc, ◌≤◌, refl, true, false, some, [], ◌∷◌, arith, length, take, drop, ltb, ap, sym, ◌∙◌,
  ◌≡◌, drop-append, take-length, Bool-cases, inl, inr, ltb→lt, ltb→le,
}
use over.Kernel.{Fd, Bytes, Kernel, WritesWithin, Feeds, taken}

-- `tail` stands behind every heap block.
abbrev pub stub : Bytes → Bytes → Kernel
stub packet tail = record {
  read = λ l fd count. some packet;
  write = λ l fd bytes. some (length bytes);
  epoll_add = λ l fd. true;
  epoll_del = λ l fd. true;
  epoll_wait = λ l. some [];
  flags = λ l fd. record { failing = false; input = true; output = true };
  set_nonblock = λ l fd. true;
  epoll_create = λ l. some 5;
  accept = λ l. some 6;
  getpeername = λ l fd. [];
  time = λ l. 100;
  socket = λ l. some 3;
  set_reuse = λ l fd. true;
  bind = λ l fd. true;
  listen = λ l fd. true;
  connect = λ l fd. true;
  open_tun = λ l. some 4;
  name_tun = λ l fd. true;
  poll = λ l fds. some fds;
  heap_tail = λ l. tail;
}

pub stub-WritesWithin : (packet tail : Bytes) → WritesWithin (stub packet tail)
stub-WritesWithin packet tail l fd [] n ne e = absurd (ne refl)
stub-WritesWithin packet tail l fd (b ∷ bs) n ne e = ground arith

-- A system on which every descriptor has this stream.
abbrev pub feeder : Bytes → Kernel
feeder stream = record (stub [] []) {
  read = λ l fd count. some (take count (drop (length (taken fd l)) stream));
}

take_all : (n : ℕ) (bytes : Bytes) → length bytes ≤ n → take n bytes ≡ bytes
take_all zero [] h = refl
take_all zero (b ∷ bs) h = absurd (omega arith)
take_all (suc n) [] h = refl
take_all (suc n) (b ∷ bs) h = ap (◌∷◌ b) (take_all n bs (omega arith))

pub feeder-Feeds : (stream : Bytes) (fd : Fd) → Feeds (feeder stream) fd stream
feeder-Feeds stream fd l count next come more left =
    let behind : drop (length (taken fd l)) stream ≡ next =
      ap (drop (length (taken fd l))) come
      ∙ drop-append (length (taken fd l)) (taken fd l) next refl in
    elim (Bool-cases (ltb count (length next))) [
      | inl short ↦ (
        count,
        ap (λ z. some (take count z)) behind,
        more,
        omega arith,
        omega (arith, ltb→lt _ _ short),
      )
      | inr all ↦ (
        length next,
        ap (λ z. some (take count z)) behind
            ∙ ap some
                (take_all count next (omega (arith, ltb→le _ _ all)) ∙ sym (take-length next)),
        left,
        omega (arith, ltb→le _ _ all),
        omega arith,
      )
    ]
