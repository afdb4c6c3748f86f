-- ===== src/Agent.antt =====
-- app/services/agent/orchestrator.py and tools.py: one bounded run of the agent. The `uuid4`s of the
-- rows and the two measured times in milliseconds are arguments.
pub mod Attempts
pub mod Runs
pub mod Audit
use nexus_ai.Base.{
  ℕ, ◌+◌, Bool, true, false, ◌&&◌, Option, none, some, List, [], ◌∷◌, ◌++◌, map, reverse, filter,
  find?, if◌then◌else◌, length, ltb, nat_beq, Exec, Result, ok, err, Error, and_then, gets, lift,
  modify, pure, ◌>>=◌, ◌>>◌,
}
use nexus_ai.Base.Float.{FloatOps}
use nexus_ai.Base.Text.{Text, codes, word_count, decimal}
use nexus_ai.Config.{Settings}
use nexus_ai.Database.{
  Db, Conversation, Message, MessageRole, Citation, AgentRun, AgentRunStatus, Step, ToolCall,
}
use nexus_ai.Providers
use nexus_ai.Providers.{
  EmbeddingProvider, LlmProvider, LlmMessage, LlmResult, total_tokens, Platform,
}
use nexus_ai.VectorStore.{VectorStore}
use nexus_ai.AgentMemory.{recall, remember, format_memory_block, newline}
use nexus_ai.Conversations.{recent_turns}
use nexus_ai.Retrieval.{RetrievalResult, the_only}
use nexus_ai.Retrieval.Whole.{retrieve}
use nexus_ai.Ingestion.{World, on_vectors}
use nexus_ai.Process.{
  Process, on_world, commit_session, add_message, count_usage, cost_of_tokens, record_llm_usage,
}
use nexus_ai.Chat.{or_none, or_null, user_turn}

-- A tool's text and the passages that it found.
pub record ToolResult (F : Type 0) : Type 0 where
  pub output : Text
  pub passages : List (Citation F)

-- The variables that the `try` block changes, with the process. What it set before an exception
-- stays set.
pub record Trace (F S : Type 0) : Type 0 where
  pub process : Process F S
  pub steps : List Step
  pub tool_calls : List ToolCall
  pub citations : List (Citation F)
  pub context_text : Text
  pub total_tokens : ℕ
  pub answer_text : Text

abbrev pub nothing_done : {F S : Type 0} → Process F S → Trace F S
nothing_done p = record {
  process = p;
  steps = [];
  tool_calls = [];
  citations = [];
  context_text = [];
  total_tokens = 0;
  answer_text = [];
}

abbrev pub tool_name : Text
tool_name = codes "knowledge_base_search"

-- `_SYSTEM_TEMPLATE.format(memory=…, context=…)`
unfoldable pub agent_system_prompt : Text → Text → Text
agent_system_prompt memory_block context =
    codes "You are NexusAI, an autonomous research agent. Using ONLY the knowledge "
    ++ (codes "base passages below, answer the user's objective. Cite sources inline as "
        ++ (codes "[n]. If the passages do not contain the answer, say you don't have enough "
            ++ (codes "information."
                ++ (newline
                    ++ (newline
                        ++ (memory_block
                            ++ (codes "Knowledge base:" ++ (newline ++ or_none context))))))))

module _ {F S : Type 0} where
  abbrev pub on_process : {A : Type 0} → Exec (Process F S) A → Exec (Trace F S) A
  on_process m t = let (r, p) = m t.process in (r, record t { process = p })

  -- What follows a call of the tool.
  unfoldable pub record_call : ℕ → Text → ToolResult F → Trace F S → Trace F S
  unfolding decimal
  record_call latency_ms objective result t = record t {
    context_text = result.output;
    citations = result.passages;
    tool_calls =
        t.tool_calls
        ++ record {
          tool = tool_name;
          input = objective;
          result_count = length result.passages;
          latency_ms = latency_ms;
        }
          ∷ [];
    steps =
        t.steps
        ++ record {
          step = length t.steps + 1;
          thought = codes "Search the knowledge base for the objective.";
          action = tool_name;
          observation =
              codes "Retrieved " ++ (decimal (length result.passages) ++ codes " passage(s).");
        }
          ∷ [];
  }

  unfoldable pub add_run : AgentRun F → Process F S → Process F S
  add_run run p =
      let db = p.world.session in
      record p {
        world = record p.world { session = record db { agent_runs = db.agent_runs ++ run ∷ [] } };
      }

-- `list_runs`, the newest first
unfoldable pub list_runs : {F : Type 0} → Db F → ℕ → List (AgentRun F)
list_runs db conversation =
    reverse (filter (λ r. nat_beq r.conversation_id conversation) db.agent_runs)

unfoldable pub get_run : {F : Type 0} → Db F → ℕ → ℕ → Option (AgentRun F)
get_run db conversation run = elim (find? (λ r. nat_beq r.id run) db.agent_runs) [
  | none ↦ none
  | some r ↦ if nat_beq r.conversation_id conversation then some r else none
]

module _ {F S : Type 0} (fl : FloatOps F) (show : F → Text) (platform : Platform) (round6 : F → F)
    (settings : Settings F) (embedder : EmbeddingProvider F) (vector_store : VectorStore F S)
    (llm : LlmProvider) where
  -- `KnowledgeBaseSearchTool.run`
  unfoldable pub run_tool : ℕ → Text → Exec (Process F S) (ToolResult F)
  unfolding retrieve
  run_tool workspace query p =
      let (found, p') =
        on_world
          (on_vectors (
            retrieve fl platform round6 embedder vector_store settings p.world.session workspace
              query))
          p in
      (and_then found (λ r. ok (record { output = r.context; passages = r.citations })), p')

  -- `memory_block` and `memory_vector`
  unfoldable pub memory_of : Conversation → Text → Process F S → Result (Text × Option (List F))
  unfolding recent_turns recall format_memory_block
  memory_of conversation objective p =
      if settings.agent_memory_enabled
      then and_then (embedder.embed (objective ∷ [])) (λ vectors.
        and_then (the_only fl platform vectors) (λ vector.
          let short_term =
            recent_turns p.world.session conversation.id settings.agent_short_term_turns in
          let long_term =
            recall fl p.memory conversation.workspace_id vector settings.agent_long_term_top_k in
          ok (format_memory_block short_term long_term, some vector)))
      else ok ([], none)

  unfoldable pub use_tool : ℕ → Conversation → Text → Exec (Trace F S) (Unit {0})
  unfolding run_tool record_call
  use_tool tool_ms conversation objective = do
    result ← on_process (run_tool conversation.workspace_id objective)
    modify (record_call tool_ms objective result)

  -- The last step is kept for the answer.
  abbrev pub maybe_use_tool : ℕ → Conversation → Text → Exec (Trace F S) (Unit {0})
  maybe_use_tool tool_ms conversation objective t =
      if ltb 1 settings.agent_max_steps
      then use_tool tool_ms conversation objective t
      else (ok tt, t)

  unfoldable pub record_answer : LlmResult → Trace F S → Trace F S
  unfolding record_llm_usage
  record_answer completion t = record t {
    process = count_usage fl show settings (Providers.total_tokens completion) t.process;
    answer_text = completion.text;
    total_tokens = Providers.total_tokens completion;
    steps =
        t.steps
        ++ record {
          step = length t.steps + 1;
          thought = codes "Synthesise a grounded answer from the passages.";
          action = codes "final_answer";
          observation = codes "Answer generated.";
        }
          ∷ [];
  }

  -- The `try` block.
  unfoldable pub attempt_run : ℕ → Conversation → Text → Text → Exec (Trace F S) (Unit {0})
  unfolding use_tool agent_system_prompt record_answer
  attempt_run tool_ms conversation objective memory_block = do
    maybe_use_tool tool_ms conversation objective
    context ← gets (λ t. t.context_text)
    completion ← lift (
        llm.complete (
          record { role = codes "system"; content = agent_system_prompt memory_block context }
          ∷ record { role = codes "user"; content = objective }
          ∷ []))
    modify (record_answer completion)

  unfoldable pub answer_turn : ℕ → Conversation → Trace F S → Message F
  answer_turn answer_id conversation t = record {
    id = answer_id;
    conversation_id = conversation.id;
    role = MessageRole.assistant;
    content = t.answer_text;
    tokens = t.total_tokens;
    citations = or_null t.citations;
  }

  -- Only a run that is completed is remembered.
  unfoldable pub remember_run :
      Option (List F) → Conversation → Text → Text → Process F S → Process F S
  unfolding remember
  remember_run none conversation objective answer p = p
  remember_run (some vector) conversation objective answer p =
      if settings.agent_memory_enabled
      then (record p {
        memory =
            remember p.memory conversation.workspace_id vector
              (codes "Objective: " ++ (objective ++ (codes " | Answer: " ++ answer)));
      })
      else p

  -- `AgentRun(…)`
  unfoldable pub run_of :
      ℕ
      → ℕ
      → Conversation
      → Text
      → AgentRunStatus
      → Option ℕ
      → Option Error
      → Trace F S
      → AgentRun F
  run_of run_id run_ms conversation objective status answer_message error t = record {
    id = run_id;
    conversation_id = conversation.id;
    status = status;
    objective = objective;
    steps = t.steps;
    tool_calls = t.tool_calls;
    cost_usd = round6 (cost_of_tokens fl show settings t.total_tokens);
    latency_ms = run_ms;
    answer_message_id = answer_message;
    error = error;
  }

  -- What comes after the `try` block: the assistant's turn, and the row of the run.
  unfoldable pub finish_run :
      ℕ
      → ℕ
      → ℕ
      → Conversation
      → Text
      → Option (List F)
      → Result (Unit {0}) × Trace F S
      → Result (AgentRun F) × Process F S
  unfolding answer_turn remember_run run_of add_run add_message commit_session
  finish_run answer_id run_id run_ms conversation objective vector (ok done, t) =
      let p =
        remember_run vector conversation objective t.answer_text
          (add_message (answer_turn answer_id conversation t) t.process) in
      let run =
        run_of run_id run_ms conversation objective AgentRunStatus.completed (some answer_id) none
          t in
      (ok run, commit_session (add_run run p))
  finish_run answer_id run_id run_ms conversation objective vector (err e, t) =
      let run = run_of run_id run_ms conversation objective AgentRunStatus.failed none (some e) t in
      (ok run, commit_session (add_run run t.process))

  unfoldable pub run_agent :
      ℕ → ℕ → ℕ → ℕ → ℕ → Conversation → Text → Exec (Process F S) (AgentRun F)
  unfolding memory_of user_turn add_message attempt_run finish_run
  run_agent turn_id answer_id run_id tool_ms run_ms conversation objective p =
      elim (memory_of conversation objective p) [
        | err e ↦ (err e, p)
        | ok remembered ↦ finish_run answer_id run_id run_ms conversation objective remembered.1 (
            attempt_run tool_ms conversation objective remembered.0
              (nothing_done (add_message (user_turn turn_id conversation.id objective) p)))
      ]
