-- ===== src/Workspaces/Members.antt =====
-- What `add_member` and `create_workspace` do to the memberships: who may change them, what they
-- write, and that they touch no other membership.
use nexus_ai.Base.{
  ℕ, ◌≡◌, refl, ◌&&◌, Option, none, some, List, [], ◌∷◌, ◌++◌, if◌then◌else◌, find?, nat_beq, arith,
  Result, ok, err, not_found_error, permission_denied, Option-cases, inl, inr, find?-sound,
  Bool-cases, Bool, true, false, ◌||◌, is_some, any, integrity_error, ◌⊎◌,
}
use nexus_ai.Base.Text.{Text}
use nexus_ai.Database.{Db, Workspace, Membership, Role, owner}
use nexus_ai.Workspaces.{
  is_manager, is_membership, get_membership, get_for_user, get_workspace, create_workspace,
  set_role, put_member, add_member,
}

-- What the caller's membership allows: the service's two errors, or going on.
abbrev pub permit : Option Membership → Result (Unit {0})
permit none = err not_found_error
permit (some m) = if is_manager m.role then ok tt else err permission_denied

find?-set_role :
    (workspace user : ℕ) (role : Role) (w u : ℕ) (ms : List Membership) (old : Membership)
    → find? (is_membership workspace user) ms ≡ some old
    → find? (is_membership w u) (set_role workspace user role ms) ≡ (
        if nat_beq w workspace && nat_beq u user
        then some (record { user_id = user; workspace_id = workspace; role = role })
        else find? (is_membership w u) ms)
unfolding set_role
find?-set_role workspace user role w u [] old h = ground arith
find?-set_role workspace user role w u (m ∷ ms) old h =
    ground (arith, find?-set_role workspace user role w u ms old)

find?-append_new :
    (workspace user : ℕ) (role : Role) (w u : ℕ) (ms : List Membership)
    → find? (is_membership workspace user) ms ≡ none
    → find?
        (is_membership w u)
        (ms ++ record { user_id = user; workspace_id = workspace; role = role } ∷ [])
      ≡ (if nat_beq w workspace && nat_beq u user
          then some (record { user_id = user; workspace_id = workspace; role = role })
          else find? (is_membership w u) ms)
find?-append_new workspace user role w u [] h = ground arith
find?-append_new workspace user role w u (m ∷ ms) h =
    ground (arith, find?-append_new workspace user role w u ms)

find?-append_row :
    (id : ℕ) (row : Workspace) (ws : List Workspace)
    → find? (λ w. nat_beq w.id id) ws ≡ none
    → row.id ≡ id
    → find? (λ w. nat_beq w.id id) (ws ++ row ∷ []) ≡ some row
find?-append_row id row [] h same = ground arith
find?-append_row id row (w ∷ ws) h same = ground (arith, find?-append_row id row ws)

module _ {F : Type 0} (db : Db F) (workspace actor user : ℕ) (role : Role) where
  abbrev written : Membership
  written = record { user_id = user; workspace_id = workspace; role = role }

  -- The user is a member already, or has a row.
  abbrev pub can_join : Bool
  can_join = is_some (get_membership db workspace user) || any (λ u. nat_beq u.id user) db.users

  -- The member has the role, and every other membership is as it was.
  abbrev pub IsJoined : Result Membership × Db F → Type 0
  IsJoined (r, db') =
      (r ≡ ok written)
      × ((w u : ℕ)
          → get_membership db' w u ≡ (
              if nat_beq w workspace && nat_beq u user
              then some written
              else get_membership db w u))

  put_member-IsJoined :
      can_join ≡ true
      → IsJoined (put_member workspace user role (get_membership db workspace user) db)
  unfolding put_member get_membership
  put_member-IsJoined h = elim (Option-cases (get_membership db workspace user)) [
    | inl new ↦
        let known : any (λ u. nat_beq u.id user) db.users ≡ true = ground arith in
        rw (new, known) (refl, (λ w u. find?-append_new workspace user role w u db.memberships new))
    | inr (old, e) ↦
        let same = find?-sound (is_membership workspace user) db.memberships old e in
        rw e (ground arith, (λ w u. find?-set_role workspace user role w u db.memberships old e))
  ]

  put_member-unknown :
      can_join ≡ false
      → put_member workspace user role (get_membership db workspace user) db
        ≡ (err integrity_error, db)
  unfolding put_member
  put_member-unknown h = elim (Option-cases (get_membership db workspace user)) [
    | inl new ↦
        let unknown : any (λ u. nat_beq u.id user) db.users ≡ false = ground arith in
        rw (new, unknown) refl
    | inr (old, e) ↦ absurd (ground arith)
  ]

  -- What a caller gets, by what the membership of the actor permits.
  abbrev pub IsAdded : Result (Unit {0}) → Result Membership × Db F → Type 0
  IsAdded (err e) x = x ≡ (err e, db)
  IsAdded (ok permitted) x =
      ((can_join ≡ true) × IsJoined x) ⊎ ((can_join ≡ false) × (x ≡ (err integrity_error, db)))

  put_member-IsAdded :
      IsAdded (ok tt) (put_member workspace user role (get_membership db workspace user) db)
  put_member-IsAdded = elim (Bool-cases can_join) [
    | inl joins ↦ inl (joins, put_member-IsJoined joins)
    | inr unknown ↦ inr (unknown, put_member-unknown unknown)
  ]

  -- `add_member` by what the actor's membership permits. For a manager, a user who is a member
  -- already or has a row then has the given role, and every other membership of any user in any
  -- workspace is as it was; any other user is an IntegrityError that changes nothing. An actor who
  -- is no manager gets the error of the service, and the database is left as it was.
  pub add_member-exact :
      IsAdded (permit (get_membership db workspace actor)) (add_member workspace actor user role db)
  unfolding add_member
  add_member-exact = elim (Option-cases (get_membership db workspace actor)) [
    | inl stranger ↦
        let stops : add_member workspace actor user role db ≡ (err not_found_error, db) =
          ground arith in
        rw (stops, stranger) refl
    | inr (m, e) ↦ elim (Bool-cases (is_manager m.role)) [
      | inl manager ↦
          let goes : add_member workspace actor user role db
              ≡ put_member workspace user role (get_membership db workspace user) db =
            ground arith in
          rw (goes, e, manager) put_member-IsAdded
      | inr other ↦
          let stops : add_member workspace actor user role db ≡ (err permission_denied, db) =
            ground arith in
          rw (stops, e, other) refl
    ]
  ]

-- A new workspace, whose id is new, has its creator for an owner who can read it, and changes no
-- other membership.
pub create_workspace-owned :
    {F : Type 0} (db : Db F) (name : Text) (owner_id new_id : ℕ)
    → get_workspace db new_id ≡ none
    → get_membership db new_id owner_id ≡ none
    → let (r, db') = create_workspace name owner_id new_id db in
      (r ≡ get_for_user db' new_id owner_id)
      × ((w u : ℕ)
          → get_membership db' w u ≡ (
              if nat_beq w new_id && nat_beq u owner_id
              then some (record { user_id = owner_id; workspace_id = new_id; role = owner })
              else get_membership db w u))
unfolding create_workspace get_membership get_for_user get_workspace
create_workspace-owned db name owner_id new_id no_row stranger =
    let row : Workspace = record {
      id = new_id;
      name = name;
      owner_id = owner_id;
      deleted_at = none;
    } in
    (
      ground (
        arith,
        find?-append_new new_id owner_id owner new_id owner_id db.memberships,
        find?-append_row new_id row db.workspaces no_row refl,
      ),
      λ w u. find?-append_new new_id owner_id owner w u db.memberships stranger,
    )
