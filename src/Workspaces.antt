-- ===== src/Workspaces.antt =====
-- app/services/workspace_service.py: workspaces, memberships and roles. A unique constraint leaves
-- at most one membership of a user in a workspace, so a query for it takes the first row. A call
-- that raises has written nothing, as the request's session is rolled back.
pub mod Access
pub mod Members
use nexus_ai.Base.{
  ℕ, Bool, true, false, ◌&&◌, not, Option, none, some, List, [], ◌∷◌, ◌++◌, map, if◌then◌else◌,
  find?, filter, any, is_some, nat_beq, Exec, Result, ok, err, not_found_error, permission_denied,
  integrity_error,
}
use nexus_ai.Base.Text.{Text}
use nexus_ai.Database.{Db, User, Workspace, Membership, Role, owner, admin, member, viewer}

-- `role in _MANAGER_ROLES`
unfoldable pub is_manager : Role → Bool
is_manager owner = true
is_manager admin = true
is_manager member = false
is_manager viewer = false

abbrev pub is_membership : ℕ → ℕ → Membership → Bool
is_membership workspace user m = nat_beq m.workspace_id workspace && nat_beq m.user_id user

-- The join gives a workspace once for each membership of the user in it.
unfoldable pub joined : List Membership → ℕ → List Workspace → List Workspace
joined memberships user [] = []
joined memberships user (w ∷ ws) =
    map (λ m. w) (if is_some w.deleted_at then [] else filter (is_membership w.id user) memberships)
    ++ joined memberships user ws

-- `existing.role = role`
unfoldable pub set_role : ℕ → ℕ → Role → List Membership → List Membership
set_role workspace user role [] = []
set_role workspace user role (m ∷ ms) =
    let rest = set_role workspace user role ms in
    if is_membership workspace user m then record m { role = role } ∷ ms else m ∷ rest

module _ {F : Type 0} where
  unfoldable pub get_membership : Db F → ℕ → ℕ → Option Membership
  get_membership db workspace user = find? (is_membership workspace user) db.memberships

  -- `new_id` is the `uuid4` of the new workspace.
  unfoldable pub create_workspace : Text → ℕ → ℕ → Exec (Db F) Workspace
  create_workspace name owner_id new_id db =
      let workspace : Workspace = record {
        id = new_id;
        name = name;
        owner_id = owner_id;
        deleted_at = none;
      } in
      (
        ok workspace,
        record db {
          workspaces = db.workspaces ++ workspace ∷ [];
          memberships =
              db.memberships
              ++ record { user_id = owner_id; workspace_id = new_id; role = owner } ∷ [];
        },
      )

  unfoldable pub list_for_user : Db F → ℕ → List Workspace
  unfolding joined
  list_for_user db user = joined db.memberships user db.workspaces

  -- `db.get(Workspace, workspace_id)`
  unfoldable pub get_workspace : Db F → ℕ → Option Workspace
  get_workspace db workspace = find? (λ w. nat_beq w.id workspace) db.workspaces

  unfoldable pub get_for_user : Db F → ℕ → ℕ → Result Workspace
  unfolding get_membership get_workspace
  get_for_user db workspace user = elim (get_membership db workspace user) [
    | none ↦ err not_found_error
    | some m ↦ elim (get_workspace db workspace) [
      | none ↦ err not_found_error
      | some w ↦ if is_some w.deleted_at then err not_found_error else ok w
    ]
  ]

  -- The foreign key of a membership asks for a row of the user, deleted or not; the commit of any
  -- other is an `IntegrityError`.
  unfoldable pub put_member : ℕ → ℕ → Role → Option Membership → Exec (Db F) Membership
  unfolding set_role
  put_member workspace user role (some existing) db = (
    ok (record existing { role = role }),
    record db { memberships = set_role workspace user role db.memberships },
  )
  put_member workspace user role none db =
      let m : Membership = record { user_id = user; workspace_id = workspace; role = role } in
      if any (λ u. nat_beq u.id user) db.users
      then (ok m, record db { memberships = db.memberships ++ m ∷ [] })
      else (err integrity_error, db)

  unfoldable pub add_member : ℕ → ℕ → ℕ → Role → Exec (Db F) Membership
  unfolding is_manager put_member
  add_member workspace actor user role db = elim (get_membership db workspace actor) [
    | none ↦ (err not_found_error, db)
    | some m ↦
        if not (is_manager m.role)
        then (err permission_denied, db)
        else put_member workspace user role (get_membership db workspace user) db
  ]
