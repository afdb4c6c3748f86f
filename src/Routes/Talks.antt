-- ===== src/Routes/Talks.antt =====
-- app/api/v1/conversations.py and app/api/v1/agents.py.
use nexus_ai.Base.{
  ℕ, Option, some, none, List, find?, nat_beq, and_then, Exec, Result, ok, err, http_exception,
}
use nexus_ai.Base.Float.{FloatOps}
use nexus_ai.Base.Text.{Text}
use nexus_ai.Config.{Settings}
use nexus_ai.Database.{Db, User, Conversation, Message, AgentRun}
use nexus_ai.Providers.{EmbeddingProvider, LlmProvider, Platform}
use nexus_ai.VectorStore.{VectorStore}
use nexus_ai.Conversations
use nexus_ai.Chat
use nexus_ai.Chat.{Event}
use nexus_ai.Agent
use nexus_ai.Process.{Process}
use nexus_ai.Routes.{or_not_found, outcome_by, on_db}

abbrev pub found_or_404 : {A : Type 0} → Option A → Result A
found_or_404 none = err (http_exception 404)
found_or_404 (some a) = ok a

abbrev pub answer_row : {F : Type 0} → Option ℕ → Db F → Option (Message F)
answer_row none db = none
answer_row (some id) db = find? (λ m. nat_beq m.id id) db.messages

module _ {F S : Type 0} where
  -- `_require_conversation`, which the routes of the conversations write out
  unfoldable pub require_conversation : ℕ → ℕ → User → Process F S → Result Conversation
  unfolding Conversations.get_for_user
  require_conversation workspace conversation user p =
      or_not_found (Conversations.get_for_user p.world.session workspace conversation user.id)

  unfoldable pub create_conversation_route : ℕ → ℕ → Text → User → Exec (Process F S) Conversation
  unfolding Conversations.create_conversation
  create_conversation_route new_id workspace title user =
      outcome_by or_not_found
        (on_db (Conversations.create_conversation new_id workspace user.id title))

  unfoldable pub list_conversations_route : ℕ → User → Exec (Process F S) (List Conversation)
  unfolding Conversations.list_for_user
  list_conversations_route workspace user p =
      (or_not_found (Conversations.list_for_user p.world.session workspace user.id), p)

  unfoldable pub get_conversation_route : ℕ → ℕ → User → Exec (Process F S) Conversation
  unfolding require_conversation
  get_conversation_route workspace conversation user p =
      (require_conversation workspace conversation user p, p)

  unfoldable pub list_messages_route : ℕ → ℕ → User → Exec (Process F S) (List (Message F))
  unfolding require_conversation Conversations.list_messages
  list_messages_route workspace conversation user p = (
    and_then (require_conversation workspace conversation user p)
        (λ c. ok (Conversations.list_messages p.world.session conversation)),
    p,
  )

  unfoldable pub list_runs_route : ℕ → ℕ → User → Exec (Process F S) (List (AgentRun F))
  unfolding require_conversation Agent.list_runs
  list_runs_route workspace conversation user p = (
    and_then (require_conversation workspace conversation user p)
        (λ c. ok (Agent.list_runs p.world.session conversation)),
    p,
  )

  unfoldable pub get_run_route : ℕ → ℕ → ℕ → User → Exec (Process F S) (AgentRun F)
  unfolding require_conversation Agent.get_run
  get_run_route workspace conversation run user p = (
    and_then (require_conversation workspace conversation user p)
        (λ c. found_or_404 (Agent.get_run p.world.session conversation run)),
    p,
  )

  -- `AgentRunResponse`
  abbrev pub with_answer :
      Result (AgentRun F) × Process F S → Result (AgentRun F × Option (Message F)) × Process F S
  with_answer (err e, p) = (err e, p)
  with_answer (ok run, p) = (ok (run, answer_row run.answer_message_id p.world.session), p)

module _ {F S : Type 0} (fl : FloatOps F) (show : F → Text) (platform : Platform) (round6 : F → F)
    (settings : Settings F) (embedder : EmbeddingProvider F) (vector_store : VectorStore F S)
    (llm : LlmProvider) where
  unfoldable pub post_message : ℕ → ℕ → ℕ → ℕ → Text → User → Exec (Process F S) (Message F)
  unfolding require_conversation Chat.generate_answer
  post_message turn_id answer_id workspace conversation message user p =
      elim (require_conversation workspace conversation user p) [
        | err e ↦ (err e, p)
        | ok c ↦
            Chat.generate_answer fl show platform round6 settings embedder vector_store llm turn_id
              answer_id c message p
      ]

  -- A refusal, or the events that the response streams and how the stream ended.
  unfoldable pub post_message_stream :
      ℕ → ℕ → ℕ → ℕ → Text → User → Exec (Process F S) (List (Event F) × Result (Unit {0}))
  unfolding require_conversation Chat.stream_answer
  post_message_stream turn_id answer_id workspace conversation message user p =
      elim (require_conversation workspace conversation user p) [
        | err e ↦ (err e, p)
        | ok c ↦
            let (streamed, p') =
              Chat.stream_answer fl show platform round6 settings embedder vector_store llm turn_id
                answer_id c message p in
            (ok streamed, p')
      ]

  unfoldable pub create_run :
      ℕ → ℕ → ℕ → ℕ → ℕ → ℕ → ℕ → Text → User → Exec (Process F S) (AgentRun F × Option (Message F))
  unfolding require_conversation Agent.run_agent
  create_run turn_id answer_id run_id tool_ms run_ms workspace conversation objective user p =
      elim (require_conversation workspace conversation user p) [
        | err e ↦ (err e, p)
        | ok c ↦ with_answer (
            Agent.run_agent fl show platform round6 settings embedder vector_store llm turn_id
              answer_id run_id tool_ms run_ms c objective p)
      ]
