-- ===== src/Vpn/Reply.antt =====
-- The server's reply to an address request, read by the client.
use over.Base.{
  sym, append_assoc, ◌∙◌, ap, ◌+◌, ℕ, ◌<◌, ◌≡◌, refl, Bool, true, false, Option, none, some, List,
  [], ◌∷◌, ◌++◌, ◌==◌, arith, holds_from, holds_from-at, if◌then◌else◌,
}
use over.Kernel.{cut_short, Bytes, Kernel}
use over.Run.{Machine, Returns}
use over.Wire.{u32_bytes}
use over.Server.State.{User}
use over.Server.Boot.{slot_addr}
use over.Server.Client.{reply_tail, reply_text}
use over.Vpn.State.{Vars}
use over.Vpn.Config.{c_string, read_ips}
use over.Vpn.Socket.{ip_reply}
use over.Io.Delivery.{Sends}
use over.Vpn.Sends.{joined, write_each-Sends}

-- The address, the mask, and the three name servers. The last byte is a parameter.
abbrev pub config : ℕ → ℕ → List Bytes
config i last =
    (13 ∷ 8 ∷ 0 ∷ i ∷ [])
    ∷ (0 ∷ 0 ∷ 0 ∷ 0 ∷ [])
    ∷ (166 ∷ 111 ∷ 8 ∷ 28 ∷ [])
    ∷ (166 ∷ 111 ∷ 8 ∷ 29 ∷ [])
    ∷ (8 ∷ 8 ∷ 8 ∷ last ∷ [])
    ∷ []

unfoldable same_bytes : Bytes → Bytes → Bool
same_bytes [] [] = true
same_bytes [] (y ∷ ys) = false
same_bytes (x ∷ xs) [] = false
same_bytes (x ∷ xs) (y ∷ ys) = if x == y then same_bytes xs ys else false

same_bytes-eq : (xs ys : Bytes) → same_bytes xs ys ≡ true → xs ≡ ys
unfolding same_bytes
same_bytes-eq [] [] h = refl
same_bytes-eq [] (y ∷ ys) h = absurd (cc)
same_bytes-eq (x ∷ xs) [] h = absurd (cc)
same_bytes-eq (x ∷ xs) (y ∷ ys) h = grind (arith, same_bytes-eq xs ys)

unfoldable pub same_blocks : Option (List Bytes) → List Bytes → Bool
unfolding same_bytes
same_blocks none ys = false
same_blocks (some []) [] = true
same_blocks (some []) (y ∷ ys) = false
same_blocks (some (x ∷ xs)) [] = false
same_blocks (some (x ∷ xs)) (y ∷ ys) = if same_bytes x y then same_blocks (some xs) ys else false

same_blocks-eq : (xs : List Bytes) (ys : List Bytes) → same_blocks (some xs) ys ≡ true → xs ≡ ys
unfolding same_blocks
same_blocks-eq [] [] h = refl
same_blocks-eq [] (y ∷ ys) h = absurd (cc)
same_blocks-eq (x ∷ xs) [] h = absurd (cc)
same_blocks-eq (x ∷ xs) (y ∷ ys) h = grind (arith, same_bytes-eq x y, same_blocks-eq xs ys)

pub same_blocks-some :
    (o : Option (List Bytes)) (ys : List Bytes) → same_blocks o ys ≡ true → o ≡ some ys
unfolding same_blocks
same_blocks-some none ys h = absurd (cc)
same_blocks-some (some xs) ys h = ap some (same_blocks-eq xs ys h)

unfoldable pub no_zero : Bytes → Bool
no_zero [] = true
no_zero (c ∷ cs) = if c == 0 then false else no_zero cs

pub c_string-terminated :
    (text rest : Bytes) → no_zero text ≡ true → c_string (text ++ 0 ∷ rest) ≡ text
unfolding c_string no_zero
c_string-terminated [] rest h = refl
c_string-terminated (c ∷ cs) rest h = grind (arith, c_string-terminated cs rest)

-- A reply whose text, up to its end in memory, is taken apart into these blocks.
pub ip_reply-Sends :
    (k : Kernel) (body text : Bytes) (ips : List Bytes) (m : Machine Vars)
    → c_string (body ++ k.heap_tail m.log) ≡ text
    → read_ips 5 text ≡ some ips
    → Returns
        (Sends cut_short m.vars.response_fd (joined (ips ++ u32_bytes m.vars.socket_fd ∷ [])) m)
        (ip_reply k body m)
unfolding ip_reply
ip_reply-Sends k body text ips m e f =
    rw (e, f) (write_each-Sends k m.vars.response_fd (ips ++ u32_bytes m.vars.socket_fd ∷ []) m)

-- Every entry's reply has no zero in it, and is taken apart like this.
text_table : holds_from (λ i. no_zero (slot_addr i ++ reply_tail)) 0 256 ≡ true
unfolding holds_from no_zero slot_addr
text_table = refl

config_table :
    holds_from (λ i. same_blocks (read_ips 5 (slot_addr i ++ reply_tail)) (config i 8)) 0 256 ≡ true
unfolding holds_from same_blocks read_ips slot_addr
config_table = refl

module _ (k : Kernel) (i : ℕ) (rest : Bytes) (u : User) (m : Machine Vars) where
  -- For every entry of the server's table, the client takes the server's address reply apart
  -- into the entry's address 13.8.0.i, the mask 0.0.0.0 and the three name servers, and writes
  -- these and its socket to the response descriptor and reports success, or a part of them from
  -- the front and reports failure, when a write to the descriptor was not taken whole, and
  -- changes nothing else, provided that the memory behind the reply's vector begins with a zero.
  pub ip_reply-config :
      i < 256
      → u.addr ≡ slot_addr i
      → k.heap_tail m.log ≡ 0 ∷ rest
      → Returns
          (Sends cut_short m.vars.response_fd
            (joined (config i 8 ++ u32_bytes m.vars.socket_fd ∷ []))
            m)
          (ip_reply k (reply_text u) m)
  unfolding ip_reply reply_text
  ip_reply-config lt addr tail =
      let text = slot_addr i ++ reply_tail in
      let e : c_string (text ++ 0 ∷ rest) ≡ text = c_string-terminated text rest (
        holds_from-at (λ j. no_zero (slot_addr j ++ reply_tail)) 0 256 i text_table (omega arith)
          lt) in
      let ips : read_ips 5 text ≡ some (config i 8) = same_blocks-some _ _ (
        holds_from-at (λ j. same_blocks (read_ips 5 (slot_addr j ++ reply_tail)) (config j 8)) 0 256
          i config_table (omega arith) lt) in
      rw (addr, tail, e, ips)
        (write_each-Sends k m.vars.response_fd (config i 8 ++ u32_bytes m.vars.socket_fd ∷ []) m)

-- A digit that happens to stand behind the text.
behind_table :
    holds_from
      (λ d.
        holds_from
          (λ i.
            same_blocks
              (read_ips 5 (slot_addr i ++ reply_tail ++ (48 + d) ∷ []))
              (config i (80 + d)))
          0
          256)
      0
      10
    ≡ true
unfolding holds_from same_blocks read_ips slot_addr
behind_table = refl

behind_text_table :
    holds_from
      (λ d. holds_from (λ i. no_zero (slot_addr i ++ reply_tail ++ (48 + d) ∷ [])) 0 256)
      0
      10
    ≡ true
unfolding holds_from no_zero slot_addr
behind_text_table = refl

module _ (k : Kernel) (i d : ℕ) (rest : Bytes) (u : User) (m : Machine Vars) where
  -- For every entry of the server's table, when the memory behind the reply's vector holds a
  -- digit d and then a zero, the client reports the third name server as 8.8.8.8d in place of
  -- 8.8.8.8, and everything else as sent, or a part of it all from the front, when a write to
  -- the response descriptor was not taken whole.
  pub ip_reply_unterminated :
      i < 256
      → d < 10
      → u.addr ≡ slot_addr i
      → k.heap_tail m.log ≡ (48 + d) ∷ 0 ∷ rest
      → Returns
          (Sends cut_short m.vars.response_fd
            (joined (config i (80 + d) ++ u32_bytes m.vars.socket_fd ∷ []))
            m)
          (ip_reply k (reply_text u) m)
  unfolding ip_reply reply_text
  ip_reply_unterminated lt digit addr tail =
      let text = slot_addr i ++ reply_tail ++ (48 + d) ∷ [] in
      let e : c_string (slot_addr i ++ reply_tail ++ (48 + d) ∷ 0 ∷ rest) ≡ text =
        ap c_string (sym (append_assoc (slot_addr i ++ reply_tail) ((48 + d) ∷ []) (0 ∷ rest)))
        ∙ c_string-terminated text rest (
            at_both (λ e j. no_zero (slot_addr j ++ reply_tail ++ (48 + e) ∷ []))
              behind_text_table) in
      let ips : read_ips 5 text ≡ some (config i (80 + d)) = same_blocks-some _ _ (
        at_both
          (λ e j.
            same_blocks (read_ips 5 (slot_addr j ++ reply_tail ++ (48 + e) ∷ []))
              (config j (80 + e)))
          behind_table) in
      rw (addr, tail, e, ips)
        (write_each-Sends k m.vars.response_fd
          (config i (80 + d) ++ u32_bytes m.vars.socket_fd ∷ []) m)
    where
      at_both :
          (p : ℕ → ℕ → Bool) → holds_from (λ e. holds_from (p e) 0 256) 0 10 ≡ true → p d i ≡ true
      at_both p table =
          holds_from-at (p d) 0 256 i
            (holds_from-at (λ e. holds_from (p e) 0 256) 0 10 d table (omega arith) digit)
            (omega arith) lt
