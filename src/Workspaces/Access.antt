-- ===== src/Workspaces/Access.antt =====
-- Who can read a workspace: its members alone.
use nexus_ai.Base.{
  ℕ, ◌≡◌, ◌↔◌, true, none, some, List, [], ◌∷◌, map, filter, All, All-append, arith, ok,
  Option-cases, inl, inr, Bool-cases, any,
}
use nexus_ai.Database.{Db, Workspace, Membership}
use nexus_ai.Workspaces.{
  is_membership, get_membership, get_workspace, get_for_user, list_for_user, joined,
}

module _ {F : Type 0} (db : Db F) (workspace user : ℕ) where
  -- A workspace is shown to a user exactly if the user is a member of it and it is a row that is
  -- not deleted.
  pub get_for_user_iff :
      (w : Workspace)
      → (get_for_user db workspace user ≡ ok w ↔ (
          (m : Membership) × (get_membership db workspace user ≡ some m)
          × (get_workspace db workspace ≡ some w)
          × (w.deleted_at ≡ none)))
  unfolding get_for_user
  get_for_user_iff w = elim (Option-cases (get_membership db workspace user)) [
    | inl stranger ↦ (λ h. ground arith, λ h. ground arith)
    | inr (m, e) ↦ elim (Option-cases (get_workspace db workspace)) [
      | inl missing ↦ (λ h. ground arith, λ h. ground arith)
      | inr (row, found) ↦ (λ h. (m, e, ground arith, ground arith), λ h. ground arith)
    ]
  ]

abbrev pub IsOpenTo : List Membership → ℕ → Workspace → Type 0
IsOpenTo memberships user w =
    (w.deleted_at ≡ none) × (any (is_membership w.id user) memberships ≡ true)

filter_rows :
    (memberships : List Membership) (user : ℕ) (w : Workspace) (ms : List Membership)
    → (any (is_membership w.id user) ms ≡ true → IsOpenTo memberships user w)
    → All (IsOpenTo memberships user) (map (λ m. w) (filter (is_membership w.id user) ms))
filter_rows memberships user w [] h = tt
filter_rows memberships user w (m ∷ ms) h =
    let rest = filter_rows memberships user w ms (λ p. h (ground arith)) in
    elim (Bool-cases (is_membership w.id user m)) [
      | inl e ↦ rw e (h (rw e), rest)
      | inr e ↦ rw e rest
    ]

joined-IsOpenTo :
    (memberships : List Membership) (user : ℕ) (ws : List Workspace)
    → All (IsOpenTo memberships user) (joined memberships user ws)
unfolding joined
joined-IsOpenTo memberships user [] = tt
joined-IsOpenTo memberships user (w ∷ ws) = elim (Option-cases w.deleted_at) [
  | inl live ↦ simp live (
      All-append (IsOpenTo memberships user) _ _
        (filter_rows memberships user w memberships (λ p. (live, p)))
        (joined-IsOpenTo memberships user ws))
  | inr (t, gone) ↦ simp gone (joined-IsOpenTo memberships user ws)
]

-- The list of a user holds workspaces alone that are not deleted and of which the user is a member.
pub list_for_user-IsOpenTo :
    {F : Type 0} (db : Db F) (user : ℕ) → All (IsOpenTo db.memberships user) (list_for_user db user)
unfolding list_for_user
list_for_user-IsOpenTo db user = joined-IsOpenTo db.memberships user db.workspaces
