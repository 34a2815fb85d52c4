-- ===== src/Server/Client/Faults.antt =====
-- Messages that process_client does not survive.
use over.Base.{
  ◌&&◌, ◌==◌, ltb, false, ℕ, zero, suc, ◌<◌, ◌≤◌, ◌≡◌, ◌≢◌, refl, ◌∙◌, true, none, some, [], ◌++◌,
  arith, length, get_elem?, pos, negsuc, lt→ltb, le→ltb, get_elem?-set_self, get_elem?-lt, ◌+◌, ◌^◌,
}
use over.Kernel.{Fd, Bytes, Kernel}
use over.Run.{Machine, ok, spent, fault}
use over.Io.{write_all}
use over.Wire.{header_size, read_header, header_length, frame}
use over.Server.State.{Vars, ip_req, data_req, heartbeat}
use over.Server.Pool.{search_by_fd}
use over.Server.Client.{dispatch, negative_message, client_loop, keep_alive}
use over.Server.Client.Framing.{message_step}

module _ (k : Kernel) (c t : Fd) where
  -- With no body, only an address request and a heartbeat do anything.
  dispatch_idle :
      (type : ℕ) (m : Machine Vars)
      → type ≢ ip_req
      → type ≢ heartbeat
      → dispatch k c t type [] m ≡ ok true m
  unfolding dispatch write_all
  dispatch_idle type m a h = ground arith

  -- With at least a header in the buffer whose length is 0 and whose type is neither an address
  -- request nor a heartbeat, no number of rounds is enough for the loop of process_client.
  pub client_loop_zero_length :
      (f : ℕ) (m : Machine Vars) (buf : Bytes)
      → get_elem? m.vars.bufs c ≡ some buf
      → header_size ≤ length buf
      → header_length (read_header buf) ≡ pos 0
      → (read_header buf).type ≢ ip_req
      → (read_header buf).type ≢ heartbeat
      → client_loop k f c t m ≡ spent
  unfolding client_loop
  client_loop_zero_length zero m buf e long z a h = refl
  client_loop_zero_length (suc f) m buf e long z a h =
      rw
        (
          e,
          le→ltb (length buf) header_size long,
          z,
          le→ltb (length buf) 0 (omega arith),
          dispatch_idle (read_header buf).type m a h,
          lt→ltb c (length m.vars.bufs) (get_elem?-lt m.vars.bufs c e),
        )
        (client_loop_zero_length f _ buf
          (get_elem?-set_self m.vars.bufs c buf (get_elem?-lt m.vars.bufs c e)) long z a h)

  -- With at least a header in the buffer whose length is negative, -2^31 + 5 or more, and whose
  -- type is neither an address request nor a heartbeat, the loop of process_client accesses
  -- memory outside the buffer.
  pub client_loop_negative :
      (f n : ℕ) (m : Machine Vars) (buf : Bytes)
      → get_elem? m.vars.bufs c ≡ some buf
      → header_size ≤ length buf
      → header_length (read_header buf) ≡ negsuc n
      → (read_header buf).type ≢ ip_req
      → (read_header buf).type ≢ heartbeat
      → n + 5 < 2 ^ 31
      → client_loop k (suc f) c t m ≡ fault
  unfolding client_loop negative_message
  client_loop_negative f n m buf e long z a h far =
      let fits : ltb (2 ^ 31) (n + 6) ≡ false = ground arith in
      let plain : ((read_header buf).type == data_req) && ltb (2 ^ 31) (n + 6) ≡ false =
        ground arith in
      rw
        (
          e,
          le→ltb (length buf) header_size long,
          z,
          plain,
          dispatch_idle (read_header buf).type m a h,
        )
        refl

  -- A whole heartbeat message at the front of the buffer of a client that owns no address makes
  -- the loop of process_client access users[-1].
  pub heartbeat_without_address :
      (f : ℕ) (m : Machine Vars) (body more : Bytes)
      → length body + header_size < 2 ^ 31
      → get_elem? m.vars.bufs c ≡ some (frame heartbeat body ++ more)
      → search_by_fd c m.vars.users ≡ none
      → client_loop k (suc f) c t m ≡ fault
  unfolding dispatch keep_alive
  heartbeat_without_address f m body more h e lost =
      message_step k c t more f m (record { type = heartbeat; body = body }) more h e
      ∙ rw (lost, keep_alive)
