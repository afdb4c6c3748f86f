-- ===== src/Routes/Accounts.antt =====
-- app/api/v1/auth.py and app/api/v1/workspaces.py.
use nexus_ai.Base.{ℕ, Option, List, Exec, ok}
use nexus_ai.Base.Text.{Text}
use nexus_ai.Config.{Settings}
use nexus_ai.Database.{User, Workspace, Membership, Role}
use nexus_ai.Auth
use nexus_ai.Auth.{TokenResponse}
use nexus_ai.Auth.Primitives.{Crypto}
use nexus_ai.Workspaces
use nexus_ai.Process.{Process}
use nexus_ai.Routes.{or_not_found, or_forbidden, or_unauthorized, or_conflict, outcome_by, on_db}

module _ {F S : Type 0} where
  unfoldable pub register_route :
      Crypto → ℕ → ℕ → Text → Text → Option Text → Exec (Process F S) User
  unfolding Auth.register
  register_route crypto salt new_id email password full_name =
      outcome_by or_conflict (on_db (Auth.register crypto salt new_id email password full_name))

  unfoldable pub login_route :
      Crypto → Settings F → ℕ → ℕ → Text → Text → Exec (Process F S) TokenResponse
  unfolding Auth.login
  login_route crypto settings now jti email password =
      outcome_by or_unauthorized (on_db (Auth.login crypto settings now jti email password))

  unfoldable pub refresh_route :
      Crypto → Settings F → ℕ → ℕ → Text → Exec (Process F S) TokenResponse
  unfolding Auth.refresh
  refresh_route crypto settings now new_jti token =
      outcome_by or_unauthorized (on_db (Auth.refresh crypto settings now new_jti token))

  unfoldable pub logout_route : Crypto → ℕ → Text → Exec (Process F S) (Unit {0})
  unfolding Auth.logout
  logout_route crypto now token = outcome_by or_unauthorized (on_db (Auth.logout crypto now token))

  unfoldable pub create_workspace_route : ℕ → Text → User → Exec (Process F S) Workspace
  unfolding Workspaces.create_workspace
  create_workspace_route new_id name user = on_db (Workspaces.create_workspace name user.id new_id)

  unfoldable pub list_workspaces_route : User → Exec (Process F S) (List Workspace)
  unfolding Workspaces.list_for_user
  list_workspaces_route user p = (ok (Workspaces.list_for_user p.world.session user.id), p)

  unfoldable pub get_workspace_route : ℕ → User → Exec (Process F S) Workspace
  unfolding Workspaces.get_for_user
  get_workspace_route workspace user p =
      (or_not_found (Workspaces.get_for_user p.world.session workspace user.id), p)

  unfoldable pub add_member_route : ℕ → ℕ → Role → User → Exec (Process F S) Membership
  unfolding Workspaces.add_member
  add_member_route workspace member role user =
      outcome_by or_forbidden
        (outcome_by or_not_found (on_db (Workspaces.add_member workspace user.id member role)))
