-- ===== src/Server/Table/Sample.antt =====
-- A table with one client, for concrete runs.
use over.Base.{subst, modify, ◌≡◌, refl, true, some, List, [], ◌∷◌, arith, get_elem?}
use over.Kernel.{Bytes}
use over.Text.{inet_pton}
use over.Server.State.{User}
use over.Server.Pool.{grant}
use over.Server.Boot.{fresh_user, init_users}
use over.Server.Table.{IsTable}
use over.Server.Table.Init.{init_users-IsTable}
use over.Server.Table.Changes.{modify-IsTable, grant-IsEntry}

-- The initial table after the first request, granted to client 2.
unfoldable pub first_users : List User
unfolding init_users grant
first_users = modify (grant 2 100 100 []) 2 init_users

pub first_users-IsTable : IsTable first_users
unfolding first_users init_users
first_users-IsTable =
    modify-IsTable (grant 2 100 100 []) 2 init_users init_users-IsTable
      λ u at e. grant-IsEntry 2 2 100 100 [] u (omega arith) (free_at u at) e
  where
    free_at : (u : User) → get_elem? init_users 2 ≡ some u → u.status ≡ true
    free_at u at =
        let e : fresh_user 2 ≡ u = cc (at) in subst (λ (x : User). x.status ≡ true) e refl

unfoldable pub first_user : User
unfolding grant fresh_user inet_pton
first_user = grant 2 100 100 [] (fresh_user 2)

-- An IPv4 header with destination 13.8.0.2.
abbrev pub packet : Bytes
packet = 69 ∷ 0 ∷ 0 ∷ 20 ∷ 0 ∷ 0 ∷ 0 ∷ 0 ∷ 64 ∷ 0 ∷ 0 ∷ 0 ∷ 8 ∷ 8 ∷ 8 ∷ 8 ∷ 13 ∷ 8 ∷ 0 ∷ 2 ∷ []
