-- ===== src/Conversations/Ownership.antt =====
-- Who can read a conversation, and what the agent is told of it.
use nexus_ai.Base.{ℕ, ◌≡◌, ◌↔◌, some, ok, Option-cases, inl, inr, arith}
use nexus_ai.Database.{Db, Conversation, Membership}
use nexus_ai.Workspaces.{get_membership}
use nexus_ai.Documents.{require_membership}
use nexus_ai.Conversations.{get_conversation, get_for_user}

-- A conversation is shown to a user in a workspace exactly if the user is a member of it and owns
-- the conversation, which is one of that workspace.
pub get_for_user-owned :
    {F : Type 0} (db : Db F) (workspace conversation owner_id : ℕ) (c : Conversation)
    → get_for_user db workspace conversation owner_id ≡ ok c ↔ (
        (m : Membership) × (get_membership db workspace owner_id ≡ some m)
        × (get_conversation db conversation ≡ some c)
        × (c.workspace_id ≡ workspace)
        × (c.user_id ≡ owner_id))
unfolding get_for_user require_membership
get_for_user-owned db workspace conversation owner_id c =
    elim (Option-cases (get_membership db workspace owner_id)) [
      | inl stranger ↦ (λ h. ground arith, λ h. ground arith)
      | inr (m, e) ↦ elim (Option-cases (get_conversation db conversation)) [
        | inl missing ↦ (λ h. ground arith, λ h. ground arith)
        | inr (row, found) ↦
            (λ h. (m, e, ground arith, ground arith, ground arith), λ h. ground arith)
      ]
    ]
