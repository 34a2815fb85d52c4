-- ===== src/Relay/Routing.antt =====
-- Tun's reading thread: whose queue a packet of the tun device goes to.
use over.Base.{
  ℕ, suc, ◌+◌, ◌-◌, ◌<◌, ◌≤◌, ◌≡◌, refl, inl, inr, true, false, Option, none, some, [], ◌∷◌, ◌++◌,
  ◌==◌, arith, ltb, length, drop, get_elem?, get_elem?-some, zero, modify, match_option, holds_from,
  holds_from-at, Bool-cases, Option-cases, take-length, if◌then◌else◌,
}
use over.Kernel.{Fd, Bytes, Kernel, sent}
use over.Run.{Machine, Returns, returns, ok}
use over.Text.{decimal, scan_unsigned}
use over.Wire.{byte_at, header_size}
use over.Relay.State.{Vars, change_client}
use over.Relay.Address.{
  last_piece, get_ip_num, lock, unlock, status_at, connection_of, get_connection_by_ip,
}
use over.Relay.Connection.{data_size, push_to_write_queue, queue_message}
use over.Relay.Numbers.{reads_as, reads_as-some}
use over.Relay.Queue.{message}
use over.Relay.Tun.{mk_addr, tun_reader_round, read_size}

last_piece-dot : (piece xs ys : Bytes) → last_piece piece (xs ++ (46 ∷ ys)) ≡ last_piece [] ys
unfolding last_piece
last_piece-dot piece [] ys = refl
last_piece-dot piece (x ∷ xs) ys = elim (Bool-cases (x == 46)) [
  | inl dot ↦ rw dot (last_piece-dot [] xs ys)
  | inr other ↦ rw other (last_piece-dot (piece ++ x ∷ []) xs ys)
]

byte_table : holds_from (λ i. reads_as (scan_unsigned (last_piece [] (decimal i))) i) 0 256 ≡ true
unfolding holds_from last_piece scan_unsigned decimal
byte_table = refl

get_ip_num-mk_addr :
    (bytes : Bytes) (m : Machine Vars)
    → byte_at bytes 3 < 256
    → get_ip_num (mk_addr bytes) m ≡ ok (byte_at bytes 3) m
unfolding get_ip_num mk_addr
get_ip_num-mk_addr bytes m small =
    let (rest, e) = reads_as-some _ (byte_at bytes 3) (
      holds_from-at (λ j. reads_as (scan_unsigned (last_piece [] (decimal j))) j) 0 256
        (byte_at bytes 3) byte_table (omega arith) small) in
    let d : ℕ → Bytes = λ i. decimal (byte_at bytes i) in
    let last : last_piece [] (mk_addr bytes) ≡ last_piece [] (d 3) =
      last_piece-dot [] (d 0 ++ (46 ∷ d 1) ++ (46 ∷ d 2)) (d 3) in
    rw (last, e) refl

-- The client that has the number of the last byte of the packet's destination.
unfoldable pub receiver : Bytes → Vars → Option ℕ
receiver packet v =
    let num = byte_at packet 19 in
    match_option (get_elem? v.status num) none
      λ used. if used then connection_of num v.connections else none

-- Its queue gets the packet; without it nothing happens.
unfoldable pub routed : Bytes → Vars → Vars
routed packet v =
    match_option (receiver packet v) v
      λ client. record v { clients = modify (queue_message (message packet)) client v.clients }

byte_at-drop : (n i : ℕ) (bytes : Bytes) → byte_at (drop n bytes) i ≡ byte_at bytes (n + i)
byte_at-drop zero i bytes = let e : zero + i ≡ i = omega arith in rw e refl
byte_at-drop (suc n) i [] = refl
byte_at-drop (suc n) i (b ∷ bs) =
    let e : suc n + i ≡ suc (n + i) = omega arith in rw e (byte_at-drop n i bs)

module _ (k : Kernel) where
  queues :
      (client : ℕ) (packet : Bytes) (m : Machine Vars)
      → length packet ≤ read_size
      → push_to_write_queue client (length packet + header_size) 103 packet m
        ≡ ok tt (record m {
          vars = record (m.vars) {
            clients = modify (queue_message (message packet)) client m.vars.clients;
          };
        })
  unfolding push_to_write_queue change_client
  queues client packet m fit =
      let a : ltb (data_size + header_size) (length packet + header_size) ≡ false = ground arith in
      let b : length packet + header_size - header_size ≡ length packet = omega arith in
      rw (a, b, take-length packet) refl

  -- In a table of 1024 entries with the mutex not held, a pass of tunReader on a packet of 20
  -- to 1600 bytes, the last octet of whose destination is below 256, returns; no stream has
  -- changed, and the variables are as before, but when the number of that octet is marked as
  -- used and the map has a client for it, the message of the packet, of type 103 and with its
  -- header counted in its length, stands at the end of that client's queue.
  pub tun_reader_round-routed :
      (packet : Bytes) (m : Machine Vars)
      → m.vars.locked ≡ false
      → length m.vars.status ≡ 1024
      → k.read m.log m.vars.tun_fd read_size ≡ some packet
      → 20 ≤ length packet
      → length packet ≤ read_size
      → byte_at packet 19 < 256
      → Returns
          (λ _ n. (n.vars ≡ routed packet m.vars) × ((f : Fd) → sent f n.log ≡ sent f m.log))
          (tun_reader_round k m)
  unfolding tun_reader_round get_connection_by_ip lock unlock status_at routed receiver sent
  tun_reader_round-routed packet m unheld size got long fit small =
      let a : ltb (length packet) 19 ≡ false = ground arith in
      let place : byte_at (drop 16 packet) 3 ≡ byte_at packet 19 = byte_at-drop 16 3 packet in
      let num = get_ip_num-mk_addr (drop 16 packet) in
      let (used, at) =
        get_elem?-some m.vars.status (byte_at packet 19) (omega (arith, size, small)) in
      elim (Bool-cases used) [
        | inr free ↦
            rw (got, a, unheld, num _ (rw place small), place, at, free) (returns (refl, λ f. refl))
        | inl busy ↦ elim (Option-cases (connection_of (byte_at packet 19) m.vars.connections)) [
          | inl nobody ↦
              rw (got, a, unheld, num _ (rw place small), place, at, busy, nobody)
                (returns (refl, λ f. refl))
          | inr (client, e) ↦
              rw
                (
                  got,
                  a,
                  unheld,
                  num _ (rw place small),
                  place,
                  at,
                  busy,
                  e,
                  queues client packet _ fit,
                )
                (returns (refl, λ f. refl))
        ]
      ]
