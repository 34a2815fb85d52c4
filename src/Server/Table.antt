-- ===== src/Server/Table.antt =====
-- The invariant of the address table, entry by entry.
pub mod Addresses
pub mod Changes
pub mod Init
pub mod Sample
use over.Base.{
  ℕ, ◌+◌, ◌*◌, ◌≡◌, Bool, true, false, ◌||◌, Option, none, some, List, ◌==◌, length, get_elem?,
  is_some, ◌<◌,
}
use over.Server.State.{User, Vars, client_num, max_fds, buf_size}
use over.Server.Boot.{slot_addr}
use over.Kernel.{Bytes}

-- The entries that are never given out.
abbrev pub is_reserved : ℕ → Bool
is_reserved i = (i == 0) || ((i == 1) || (i == 255))

-- The address 13.8.0.i as the number in `s_addr`.
abbrev pub slot_number : ℕ → ℕ
slot_number i = 13 + 256 * (8 + 256 * (0 + 256 * i))

-- Entry `i`: its text is its own address; while it is free it holds no descriptor; if it is reserved
-- it is neither free nor held and has no address; and otherwise, unless free, it holds a descriptor and its address.
pub record IsEntry (i : ℕ) (u : User) : Type 0 where
  pub text : u.addr ≡ slot_addr i
  pub idle : u.status ≡ true → u.fd ≡ none
  pub kept_back : is_reserved i ≡ true → (u.status ≡ false) × (u.fd ≡ none) × (u.v4addr ≡ 0)
  pub held :
      is_reserved i ≡ false → u.status ≡ false → (is_some u.fd ≡ true) × (u.v4addr ≡ slot_number i)

pub record IsTable (us : List User) : Type 0 where
  pub size : length us ≡ client_num
  pub entries : (i : ℕ) (u : User) → get_elem? us i ≡ some u → IsEntry i u
