-- ===== src/Tests/Members.antt =====
-- A workspace 1 with an owner 10 and a viewer 11, and a workspace 2 that is deleted.
use nexus_ai.Base.{ℕ, ◌≡◌, ◌↔◌, ok, err, none, some, [], ◌∷◌, refl, true, integrity_error}
use nexus_ai.Base.Text.{codes}
use nexus_ai.Database.{Db, no_rows, Workspace, Membership, owner, viewer, member}
use nexus_ai.Workspaces.{get_membership, get_workspace, get_for_user, add_member}
use nexus_ai.Workspaces.Access.{get_for_user_iff}
use nexus_ai.Workspaces.Members.{permit, IsAdded, add_member-exact}

abbrev research : Workspace
research = record { id = 1; name = codes "research"; owner_id = 10; deleted_at = none }

abbrev team : Db ℕ
team = record (no_rows {F = ℕ}) {
  users =
      record {
        id = 12;
        email = codes "new@example.org";
        hashed_password = codes "x";
        full_name = none;
        is_active = true;
        deleted_at = none;
      }
      ∷ [];
  workspaces =
      research ∷ record { id = 2; name = codes "old"; owner_id = 10; deleted_at = some 5 } ∷ [];
  memberships =
      record { user_id = 10; workspace_id = 1; role = owner }
      ∷ record { user_id = 10; workspace_id = 2; role = owner }
      ∷ record { user_id = 11; workspace_id = 1; role = viewer }
      ∷ [];
}

get_for_user_iff_example : get_for_user team 1 11 ≡ ok research ↔ (
    (m : Membership) × (get_membership team 1 11 ≡ some m)
    × (get_workspace team 1 ≡ some research)
    × (research.deleted_at ≡ none))
get_for_user_iff_example = get_for_user_iff team 1 11 research

add_member-exact_example :
    IsAdded team 1 10 12 member (permit (get_membership team 1 10)) (add_member 1 10 12 member team)
add_member-exact_example = add_member-exact team 1 10 12 member

-- The user 12 has an account and joins; there is no user 13.
joins :
    (add_member 1 10 12 member team).0
    ≡ ok (record { user_id = 12; workspace_id = 1; role = member })
unfolding add_member get_membership
joins = refl

unknown : add_member 1 10 13 member team ≡ (err integrity_error, team)
unfolding add_member get_membership
unknown = refl
