-- ===== src/Conversations.antt =====
-- app/services/conversation_service.py, and `recent_turns` of app/services/agent/memory.py. A request
-- makes at most one conversation, at the end of the table, so table order is that of `created_at`.
pub mod Ownership
pub mod Recent
use nexus_ai.Base.{
  ℕ, Bool, true, false, ◌&&◌, ◌||◌, not, Option, none, some, List, [], ◌∷◌, ◌++◌, map, reverse,
  if◌then◌else◌, find?, filter, take, nat_beq, leb, ltb, sorted_desc, Exec, Result, ok, err,
  not_found_error, and_then,
}
use nexus_ai.Base.Text.{Text, codes}
use nexus_ai.Database.{Db, Conversation, Message, MessageRole, system, user, assistant}
use nexus_ai.Documents.{require_membership}

-- `role.value`
unfoldable pub role_value : MessageRole → Text
role_value system = codes "system"
role_value user = codes "user"
role_value assistant = codes "assistant"

module _ {F : Type 0} where
  unfoldable pub create_conversation : ℕ → ℕ → ℕ → Text → Exec (Db F) Conversation
  create_conversation new_id workspace owner_id title db =
      elim (require_membership db workspace owner_id) [
        | err e ↦ (err e, db)
        | ok u ↦
            let conversation : Conversation = record {
              id = new_id;
              workspace_id = workspace;
              user_id = owner_id;
              title = title;
            } in
            (ok conversation, record db { conversations = db.conversations ++ conversation ∷ [] })
      ]

  -- The newest first.
  unfoldable pub list_for_user : Db F → ℕ → ℕ → Result (List Conversation)
  list_for_user db workspace owner_id = and_then (require_membership db workspace owner_id) λ u.
      ok (
        reverse (
          filter (λ c. nat_beq c.workspace_id workspace && nat_beq c.user_id owner_id)
            db.conversations))

  -- `db.get(Conversation, conversation_id)`
  unfoldable pub get_conversation : Db F → ℕ → Option Conversation
  get_conversation db conversation = find? (λ c. nat_beq c.id conversation) db.conversations

  unfoldable pub get_for_user : Db F → ℕ → ℕ → ℕ → Result Conversation
  get_for_user db workspace conversation owner_id =
      and_then (require_membership db workspace owner_id) λ u.
        elim (get_conversation db conversation) [
          | none ↦ err not_found_error
          | some c ↦
              if not (nat_beq c.workspace_id workspace) || not (nat_beq c.user_id owner_id)
              then err not_found_error
              else ok c
        ]

  -- `order_by(Message.created_at)`: the earlier before the later. Messages of one time come in
  -- table order.
  abbrev pub not_before : Db F → Message F → Message F → Bool
  not_before db a b = leb (db.message_time b.id) (db.message_time a.id)

  -- `order_by(Message.created_at.desc(), Message.id.desc())`: the newer before the older, and the
  -- larger id before the smaller of one time.
  abbrev pub not_newer : Db F → Message F → Message F → Bool
  not_newer db a b =
      ltb (db.message_time a.id) (db.message_time b.id)
      || (nat_beq (db.message_time a.id) (db.message_time b.id) && leb a.id b.id)

  abbrev pub messages_of : Db F → ℕ → List (Message F)
  messages_of db conversation = filter (λ m. nat_beq m.conversation_id conversation) db.messages

  unfoldable pub list_messages : Db F → ℕ → List (Message F)
  list_messages db conversation = sorted_desc (not_before db) (messages_of db conversation)

  -- The query takes the newest messages, and `reverse` puts them in order. A limit of 0 takes none.
  unfoldable pub recent_turns : Db F → ℕ → ℕ → List (Text × Text)
  unfolding role_value
  recent_turns db conversation limit =
      map (λ m. (role_value m.role, m.content))
        (reverse (take limit (sorted_desc (not_newer db) (messages_of db conversation))))
