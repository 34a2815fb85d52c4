-- ===== src/Server/Table/Init.antt =====
-- The table that MainThread fills.
use over.Base.{
  inl, inr, ◌||◌, subst, ℕ, zero, suc, ◌+◌, ◌<◌, ◌≡◌, refl, ◌∙◌, ap, some, List, arith, length,
  get_elem?, modify, length-modify, get_elem?-modify, get_elem?-lt, Bool-cases, ◌==◌, if◌then◌else◌,
}
use over.Server.State.{User, client_num}
use over.Server.Boot.{fresh_user, fresh_users, reserve, init_users}
use over.Server.Table.{IsEntry, IsTable, is_reserved}

length-fresh_users : (n i : ℕ) → length (fresh_users n i) ≡ n
unfolding fresh_users
length-fresh_users zero i = refl
length-fresh_users (suc n) i = ap suc (length-fresh_users n (suc i))

get_elem?-fresh_users :
    (n i j : ℕ) → j < n → get_elem? (fresh_users n i) j ≡ some (fresh_user (i + j))
unfolding fresh_users
get_elem?-fresh_users zero i j h = elim h [ ]
get_elem?-fresh_users (suc n) i zero h = let e : i + zero ≡ i = omega arith in rw e
get_elem?-fresh_users (suc n) i (suc j) h =
    let e : i + suc j ≡ suc i + j = omega arith in
    rw e (get_elem?-fresh_users n (suc i) j (omega arith))

-- Three entries are reserved one after the other.
get_elem?-reserve :
    (a b c j : ℕ) (us : List User) (u : User)
    → get_elem? us j ≡ some u
    → get_elem? (modify reserve a (modify reserve b (modify reserve c us))) j
      ≡ some (if (j == c) || ((j == b) || (j == a)) then reserve u else u)
unfolding reserve
get_elem?-reserve a b c j us u h = ground (
  arith,
  get_elem?-modify reserve a j (modify reserve b (modify reserve c us)),
  get_elem?-modify reserve b j (modify reserve c us),
  get_elem?-modify reserve c j us,
)

-- Entry `i` of the initial table.
initial_user : ℕ → User
initial_user i = if is_reserved i then reserve (fresh_user i) else fresh_user i

get_elem?-init_users : (i : ℕ) → i < 256 → get_elem? init_users i ≡ some (initial_user i)
unfolding init_users initial_user
get_elem?-init_users i h =
    get_elem?-reserve 255 1 0 i (fresh_users 256 0) (fresh_user i)
      (get_elem?-fresh_users 256 0 i h ∙ ap (λ (n : ℕ). some (fresh_user n)) zero_first)
  where
    zero_first : 0 + i ≡ i
    zero_first = omega arith

length-init_users : length init_users ≡ client_num
unfolding init_users
length-init_users =
    length-modify reserve 255 (modify reserve 1 (modify reserve 0 (fresh_users 256 0)))
    ∙ length-modify reserve 1 (modify reserve 0 (fresh_users 256 0))
    ∙ length-modify reserve 0 (fresh_users 256 0)
    ∙ length-fresh_users 256 0

initial_user-IsEntry : (i : ℕ) → IsEntry i (initial_user i)
unfolding initial_user reserve fresh_user
initial_user-IsEntry i = elim (Bool-cases (is_reserved i)) [
  | inl r ↦ rw r (record {
    text = refl;
    idle = λ h. refl;
    kept_back = λ h. (refl, refl, refl);
    held = λ h. ground arith;
  })
  | inr r ↦ rw r (record {
    text = refl;
    idle = λ h. refl;
    kept_back = λ h. ground arith;
    held = λ h. ground arith;
  })
]

-- The table that the server starts with is well formed.
pub init_users-IsTable : IsTable init_users
init_users-IsTable = record {
  size = length-init_users;
  entries = λ i u h.
      let lt : i < 256 = omega (arith, get_elem?-lt init_users i h, length-init_users) in
      let e : initial_user i ≡ u = cc (get_elem?-init_users i lt, h) in
      subst (IsEntry i) e (initial_user-IsEntry i);
}
