-- ===== src/Documents/Access.antt =====
-- Who can read a document.
use nexus_ai.Base.{ℕ, ◌≡◌, ◌↔◌, none, some, ok, Option-cases, inl, inr, arith}
use nexus_ai.Database.{Db, Document, Membership}
use nexus_ai.Workspaces.{get_membership}
use nexus_ai.Documents.{require_membership, get_document, get_for_user}

-- A document is shown to a user in a workspace exactly if the user is a member of it and the
-- document is a row of that workspace that is not deleted.
pub get_for_user-exact :
    {F : Type 0} (db : Db F) (workspace document user : ℕ) (d : Document)
    → get_for_user db workspace document user ≡ ok d ↔ (
        (m : Membership) × (get_membership db workspace user ≡ some m)
        × (get_document db document ≡ some d)
        × (d.deleted_at ≡ none)
        × (d.workspace_id ≡ workspace))
unfolding get_for_user require_membership
get_for_user-exact db workspace document user d =
    elim (Option-cases (get_membership db workspace user)) [
      | inl stranger ↦ (λ h. ground arith, λ h. ground arith)
      | inr (m, e) ↦ elim (Option-cases (get_document db document)) [
        | inl missing ↦ (λ h. ground arith, λ h. ground arith)
        | inr (row, found) ↦
            (λ h. (m, e, ground arith, ground arith, ground arith), λ h. ground arith)
      ]
    ]
