-- ===== src/Server/Steady/Tables.antt =====
-- The operations on the table and on one buffer keep the invariant.
use over.Base.{
  ℕ, ◌≤◌, ◌<◌, ◌≡◌, inl, inr, ◌∙◌, some, arith, ◌==◌, ltb, length, get_elem?, set, modify,
  length-set, passes_at, get_elem?-set, Bool-cases, Option-cases, find_index, find_index-some,
  ltb→lt, get_elem?-lt,
}
use over.Kernel.{Fd, Bytes, Kernel}
use over.Run.{keeps, faults, Keeps-bind, Steady, Keeps-if, Keeps-option}
use over.Io.{write_all, write_loop}
use over.Server.State.{Vars, User, user_at, buf_at, set_buf, buf_size}
use over.Server.Pool.{holds_fd, allocate_ip_addr, deallocate_ip_addr, free_client_fd}
use over.Server.Table.{IsEntry}
use over.Server.Table.Changes.{modify-IsTable, grant-IsEntry, vacate-IsEntry}
use over.Io.Steady
use over.Server.Steady.{IsState}

-- A write to the table keeps the invariant if it keeps the entry that is written.
pub modify-IsState :
    (f : User → User) (i : ℕ) (v : Vars)
    → IsState v
    → ((u : User) → get_elem? v.users i ≡ some u → IsEntry i u → IsEntry i (f u))
    → IsState (record v { users = modify f i v.users })
modify-IsState f i v s keep = record {
  table = modify-IsTable f i v.users s.table keep;
  slots = s.slots;
  within = s.within;
}

pub set-IsState :
    (fd : Fd) (b : Bytes) (v : Vars)
    → IsState v
    → fd < length v.bufs
    → length b ≤ buf_size
    → IsState (record v { bufs = set v.bufs fd b })
set-IsState fd b v s lt le = record {
  table = s.table;
  slots = length-set v.bufs fd b ∙ s.slots;
  within = λ g c h. elim (Bool-cases (fd == g)) [
    | inl same ↦ ground (arith, get_elem?-set v.bufs fd g b lt)
    | inr other ↦ s.within g c (ground (arith, get_elem?-set v.bufs fd g b lt))
  ];
}

pub buf_at-Steady : (fd : Fd) → Steady IsState (buf_at fd)
unfolding buf_at
buf_at-Steady fd m s = elim (Option-cases (get_elem? m.vars.bufs fd)) [
  | inl e ↦ rw e faults
  | inr (b, e) ↦ rw e (keeps s)
]

pub user_at-Steady : (i : ℕ) → Steady IsState (user_at i)
unfolding user_at
user_at-Steady i m s = elim (Option-cases (get_elem? m.vars.users i)) [
  | inl e ↦ rw e faults
  | inr (b, e) ↦ rw e (keeps s)
]

pub set_buf-Steady : (fd : Fd) (b : Bytes) → length b ≤ buf_size → Steady IsState (set_buf fd b)
unfolding set_buf
set_buf-Steady fd b le m s = elim (Bool-cases (ltb fd (length m.vars.bufs))) [
  | inl lt ↦ rw lt (keeps (set-IsState fd b m.vars s (ltb→lt _ _ lt) le))
  | inr out ↦ rw out faults
]

module _ (k : Kernel) where
  pub write_all-Steady : (fd : Fd) (buf : Bytes) → Steady IsState (write_all k fd buf)
  write_all-Steady fd buf = over.Io.Steady.write_all-Steady k IsState fd buf

  pub allocate_ip_addr-Steady : (fd : Fd) → Steady IsState (allocate_ip_addr k fd)
  unfolding allocate_ip_addr
  allocate_ip_addr-Steady fd m s =
      Keeps-option (find_index (λ (u : User). u.status) m.vars.users) _ _ (λ _. keeps s)
        (λ i e.
          let first = find_index-some _ m.vars.users i e in
          keeps (
            modify-IsState _ i m.vars s λ u at en.
              grant-IsEntry i fd _ _ _ u
                (omega (arith, get_elem?-lt m.vars.users i at, s.table.size)) (passes_at _ first at)
                en))

  pub deallocate_ip_addr-Steady : (fd : Fd) → Steady IsState (deallocate_ip_addr k fd)
  unfolding deallocate_ip_addr
  deallocate_ip_addr-Steady fd m s =
      Keeps-option (find_index (holds_fd fd) m.vars.users) _ _ (λ _. keeps s)
        (λ i e.
          let first = find_index-some _ m.vars.users i e in
          keeps (
            modify-IsState _ i m.vars s λ u at en. vacate-IsEntry i fd u (passes_at _ first at) en))

  pub free_client_fd-Steady : (fd : Fd) → Steady IsState (free_client_fd k fd)
  unfolding free_client_fd
  free_client_fd-Steady fd m s =
      Keeps-if (k.epoll_del m.log fd) _ _
        (λ _. Keeps-bind (deallocate_ip_addr-Steady fd _ s) (λ r n t. keeps t)) (λ _. keeps s)
