-- ===== src/Agent/Runs.antt =====
-- How a run ends, and what is kept of it.
use mathlib.Core.List.{append_assoc}
use nexus_ai.Base.{
  ℕ, ◌+◌, ◌≤◌, ◌≡◌, refl, ap, ◌∙◌, Option, none, some, List, [], ◌∷◌, ◌++◌, ◌⊎◌, inl, inr, Error,
  Result, ok, err, length, max, arith, Bool-cases, err_same,
}
use nexus_ai.Base.Float.{FloatOps}
use nexus_ai.Base.Text.{Text}
use nexus_ai.Config.{Settings}
use nexus_ai.Database.{Db, Conversation, Message, MessageRole, AgentRun, AgentRunStatus}
use nexus_ai.Providers.{EmbeddingProvider, LlmProvider, Platform}
use nexus_ai.VectorStore.{VectorStore}
use nexus_ai.Ingestion.{commit}
use nexus_ai.Process.{Process, add_message, commit_session}
use nexus_ai.Process.Calls.{Ends}
use nexus_ai.Chat.{user_turn}
use nexus_ai.Agent.{
  Trace, nothing_done, run_agent, run_of, attempt_run, memory_of, finish_run, answer_turn,
  remember_run, add_run,
}
use nexus_ai.Agent.Attempts.{
  IsNumbered, IsTraced, IsAnswered, IsRaised, tool_steps, attempt_run-Ends,
}

module _ {F S : Type 0} (fl : FloatOps F) (show : F → Text) (platform : Platform) (round6 : F → F)
    (settings : Settings F) (embedder : EmbeddingProvider F) (vector_store : VectorStore F S)
    (llm : LlmProvider) where
  module _ (turn_id answer_id run_id tool_ms run_ms : ℕ) (conversation : Conversation)
      (objective : Text) (p : Process F S) where
    -- The rows that a run adds.
    abbrev rows_with : List (Message F) → AgentRun F → Db F
    rows_with answers run = record p.world.session {
      messages = p.world.session.messages ++ user_turn turn_id conversation.id objective ∷ answers;
      agent_runs = p.world.session.agent_runs ++ run ∷ [];
    }

    abbrev pub IsCompleted : AgentRun F → Process F S → Type 0
    IsCompleted run p' =
        (run.status ≡ AgentRunStatus.completed)
        × (run.error ≡ none)
        × (run.answer_message_id ≡ some answer_id)
        × ((answer : Message F) × (answer.id ≡ answer_id)
            × (answer.role ≡ MessageRole.assistant)
            × (answer.conversation_id ≡ conversation.id)
            × IsAnswered fl show platform round6 settings embedder vector_store llm objective
                answer.content answer.tokens
            × (p'.world.session ≡ rows_with (answer ∷ []) run))

    abbrev pub IsFailed : AgentRun F → Process F S → Type 0
    IsFailed run p' =
        (run.status ≡ AgentRunStatus.failed)
        × ((e : Error) × (run.error ≡ some e)
            × IsRaised fl show platform round6 settings embedder vector_store llm
                (add_message (user_turn turn_id conversation.id objective) p) conversation objective
                e)
        × (run.answer_message_id ≡ none)
        × (p'.memory ≡ p.memory)
        × (p'.world.session ≡ rows_with [] run)

    abbrev pub IsFinished : Result (AgentRun F) → Process F S → Type 0
    IsFinished r p' =
        (run : AgentRun F) × (r ≡ ok run)
        × (run.id ≡ run_id)
        × (run.conversation_id ≡ conversation.id)
        × (p'.world.committed ≡ p'.world.session)
        × (p'.world.files ≡ p.world.files)
        × IsNumbered 1 run.steps
        × (length run.steps ≤ 2)
        × (length run.steps ≤ max 1 settings.agent_max_steps)
        × (IsCompleted run p' ⊎ IsFailed run p')

    remember_run-world :
        (vector : Option (List F)) (answer : Text) (q : Process F S)
        → (remember_run fl show platform round6 settings embedder vector_store llm vector
            conversation objective answer q).world
          ≡ q.world
    unfolding remember_run
    remember_run-world none answer q = refl
    remember_run-world (some vector) answer q = elim (Bool-cases settings.agent_memory_enabled) [
      | inl on ↦ rw on refl
      | inr off ↦ rw off refl
    ]

    finish_run-IsFinished :
        (vector : Option (List F)) (x : Result (Unit {0}) × Trace F S)
        → Ends
            (λ u t.
              IsTraced fl show platform round6 settings embedder vector_store llm
                (add_message (user_turn turn_id conversation.id objective) p)
                ((tool_steps fl show platform round6 settings embedder vector_store llm) + 1)
                t
              × IsAnswered fl show platform round6 settings embedder vector_store llm objective
                  t.answer_text t.total_tokens)
            (λ e t.
              IsTraced fl show platform round6 settings embedder vector_store llm
                (add_message (user_turn turn_id conversation.id objective) p)
                (tool_steps fl show platform round6 settings embedder vector_store llm)
                t
              × IsRaised fl show platform round6 settings embedder vector_store llm
                  (add_message (user_turn turn_id conversation.id objective) p)
                  conversation
                  objective
                  e)
            x
        → let (r, p') =
            finish_run fl show platform round6 settings embedder vector_store llm answer_id run_id
              run_ms conversation objective vector x in
          IsFinished r p'
    unfolding finish_run run_of answer_turn add_run add_message commit_session commit
    finish_run-IsFinished vector (ok done, t) (inl (u, is, ((a, b, c, numbered, few), answered))) =
        let q : Process F S =
          add_message
            (answer_turn fl show platform round6 settings embedder vector_store llm answer_id
              conversation t)
            t.process in
        let same = remember_run-world vector t.answer_text q in
        let answer : Message F =
          answer_turn fl show platform round6 settings embedder vector_store llm answer_id
            conversation t in
        let run : AgentRun F =
          run_of fl show platform round6 settings embedder vector_store llm run_id run_ms
            conversation objective AgentRunStatus.completed (some answer_id) none t in
        let put : List (Message F) → Db F → Db F =
          λ ms db. record db { messages = ms; agent_runs = db.agent_runs ++ run ∷ [] } in
        (
          run,
          refl,
          refl,
          refl,
          refl,
          ap (λ w. w.files) same ∙ b,
          numbered,
          ground (arith, few),
          ground (arith, few),
          inl (
            refl,
            refl,
            refl,
            (
              answer,
              refl,
              refl,
              refl,
              answered,
              ap (λ w. record w.session { agent_runs = w.session.agent_runs ++ run ∷ [] }) same
                  ∙ ap (λ db. put (db.messages ++ answer ∷ []) db) a
                  ∙ ap (λ ms. put ms p.world.session)
                      (append_assoc p.world.session.messages _ (answer ∷ [])),
            ),
          ),
        )
    finish_run-IsFinished vector (ok done, t) (inr (e, is, traced)) = absurd (ground arith)
    finish_run-IsFinished vector (err e, t) (inl (u, is, traced)) = absurd (ground arith)
    finish_run-IsFinished vector (err e, t) (inr (e', is, ((a, b, c, numbered, few), raised))) =
        let run : AgentRun F =
          run_of fl show platform round6 settings embedder vector_store llm run_id run_ms
            conversation objective AgentRunStatus.failed none (some e) t in
        let put : Db F → Db F = λ db. record db { agent_runs = db.agent_runs ++ run ∷ [] } in
        (
          run,
          refl,
          refl,
          refl,
          refl,
          b,
          numbered,
          ground (arith, few),
          ground (arith, few),
          inr (refl, (e, refl, rw (err_same is) raised), refl, c, ap put a),
        )

    run_agent-cases :
        (m : Result (Text × Option (List F)))
        → let (r, p') : Result (AgentRun F) × Process F S = elim m [
          | err e ↦ (err e, p)
          | ok remembered ↦
              finish_run fl show platform round6 settings embedder vector_store llm answer_id run_id
                run_ms conversation objective remembered.1
                (attempt_run fl show platform round6 settings embedder vector_store llm tool_ms
                  conversation objective remembered.0
                  (nothing_done (add_message (user_turn turn_id conversation.id objective) p)))
        ] in
          IsFinished r p' ⊎ ((e : Error) × (m ≡ err e) × (r ≡ err e) × (p' ≡ p))
    run_agent-cases (err e) = inr (e, refl, refl, refl)
    run_agent-cases (ok remembered) = inl (
        finish_run-IsFinished remembered.1
          (attempt_run fl show platform round6 settings embedder vector_store llm tool_ms
            conversation objective remembered.0
            (nothing_done (add_message (user_turn turn_id conversation.id objective) p)))
          (attempt_run-Ends fl show platform round6 settings embedder vector_store llm tool_ms
            conversation objective remembered.0
            (add_message (user_turn turn_id conversation.id objective) p)))

    -- Every run of the agent comes to an end that is recorded, unless the memory cannot be read
    -- because the embedding of the objective fails: that error is raised and nothing changes.
    -- Otherwise the run is committed, in the conversation and after the user's turn, with no file
    -- changed, with steps that are numbered from 1 on, at most two and at most `agent_max_steps`,
    -- but for the one that may always be taken. It is completed, with no error, and the stored
    -- answer is an assistant's turn of the conversation, with the text and the tokens of a
    -- completion that the model gave for the objective; or it is failed, with what the retrieval
    -- for the objective or the model raised, without an answer, and the agent remembers nothing of
    -- it. It is never left running.
    pub run_agent-finishes :
        let (r, p') =
          run_agent fl show platform round6 settings embedder vector_store llm turn_id answer_id
            run_id tool_ms run_ms conversation objective p in
        IsFinished r p'
        ⊎ ((e : Error) × (memory_of fl show platform round6 settings embedder vector_store llm
                conversation objective p
              ≡ err e)
            × (r ≡ err e)
            × (p' ≡ p))
    unfolding run_agent
    run_agent-finishes = run_agent-cases (
        memory_of fl show platform round6 settings embedder vector_store llm conversation objective
          p)
