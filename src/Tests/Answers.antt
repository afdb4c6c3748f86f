-- ===== src/Tests/Answers.antt =====
-- A question and a run of the agent in the workspace 1, over whole numbers and the in-memory store.
use nexus_ai.Base.{
  ℕ, ◌≡◌, refl, none, some, [], ◌∷◌, list_beq, ok, err, inr, ◌⊎◌, Error, other_error, nat_eq,
  Result, ap, sorted_desc,
}
use nexus_ai.Base.Dict
use nexus_ai.Base.Float.{whole}
use nexus_ai.Base.Text.{Text, codes, decimal}
use nexus_ai.Config.{Settings, defaults}
use nexus_ai.Database.{Db, no_rows, Conversation, AgentRun, indexed, completed}
use nexus_ai.Providers.{Platform, EmbeddingProvider, LlmProvider, LlmResult}
use nexus_ai.VectorStore.Memory.{Records, memory_store}
use nexus_ai.VectorStore.Memory.Laws.{memory_store-IsTenantScoped}
use nexus_ai.SemanticCache
use nexus_ai.AgentMemory
use nexus_ai.Metrics.{new_registry}
use nexus_ai.Retrieval.{dense, keyword}
use nexus_ai.Retrieval.Ranking.{fuse, rerank, add_lists}
use nexus_ai.Retrieval.Assembly.{assemble}
use nexus_ai.Retrieval.Whole.{pack}
use nexus_ai.Retrieval.Isolation.{IsSourced, hits-IsSourced}
use nexus_ai.Process.{Process, in_request}
use nexus_ai.Process.Calls.{Ends}
use nexus_ai.Chat.{generate_answer, stream_answer}
use nexus_ai.Chat.Turns.{Settles, generate_answer-turns}
use nexus_ai.Chat.Isolation.{IsFrom, StaysFrom, generate_answer-isolated}
use nexus_ai.Chat.Streaming.{Streams, stream_answer-Streams}
use nexus_ai.Agent.{run_agent, memory_of}
use nexus_ai.Agent.Runs.{IsFinished, run_agent-finishes}
use nexus_ai.Agent.Audit.{IsListed, run_agent-IsListed}

abbrev pub plain : Platform
plain = record {
  lower = λ s. s;
  ilike = λ s t. list_beq s t;
  headings = λ s. [];
  sha256_hex = λ s. s;
}

abbrev pub embedder : EmbeddingProvider ℕ
embedder = record { model = codes "unit"; dimension = 1; embed = λ texts. ok ((1 ∷ []) ∷ []) }

abbrev reply : LlmResult
reply = record { text = codes "It is blue [1]."; prompt_tokens = 8; completion_tokens = 4 }

-- A model that answers, and whose stream breaks off after one delta.
abbrev pub model : LlmProvider
model = record {
  complete = λ messages. ok reply;
  stream = λ messages. (codes "It is" ∷ [], some (other_error 3));
}

abbrev pub config : Settings ℕ
config = defaults 0 0 1 15

abbrev library : Db ℕ
library = record (no_rows {F = ℕ}) {
  documents =
      record {
        id = 7;
        workspace_id = 1;
        filename = codes "a.txt";
        mime_type = codes "text/plain";
        size_bytes = 3;
        checksum = codes "c";
        status = indexed;
        error = none;
        chunk_count = 1;
        deleted_at = none;
      }
      ∷ [];
  chunks =
      record {
        id = 2;
        document_id = 7;
        ordinal = 0;
        text = codes "sky";
        token_count = 1;
        page = none;
        section = none;
      }
      ∷ [];
}

abbrev thread : Conversation
thread = record { id = 3; workspace_id = 1; user_id = 10; title = codes "colours" }

abbrev vectors : Records ℕ
vectors = []

abbrev pub process : Process ℕ (Records ℕ)
process = record {
  world = record { session = library; committed = library; files = []; vectors = vectors };
  cache = SemanticCache.fresh 4;
  memory = AgentMemory.fresh 4;
  metrics = new_registry whole decimal (1 ∷ 10 ∷ []);
}

generate_answer-turns_example :
    let (r, p') =
      in_request
        (generate_answer whole decimal plain
          (λ x. x)
          config
          embedder
          (memory_store whole)
          model
          4
          5
          thread
          (codes "sky"))
        process in
    (p'.world.files ≡ process.world.files)
    × (p'.world.session ≡ p'.world.committed)
    × Settles whole decimal plain
        (λ x. x)
        config
        embedder
        (memory_store whole)
        model
        4
        5
        thread
        (codes "sky")
        process
        r
        p'.world.committed
generate_answer-turns_example =
    generate_answer-turns whole decimal plain (λ x. x) config embedder (memory_store whole) model 4
      5 thread (codes "sky") process

abbrev ready : Records ℕ
ready = ((memory_store whole).ensure_ready embedder.dimension process.world.vectors).1

-- A passage of a workspace of the library.
abbrev FoundIn : ℕ → ℕ → ℕ → Text → Type 0
FoundIn workspace = IsSourced (memory_store whole) ready library workspace

generate_answer-isolated_example :
    Ends
      (IsFrom whole decimal plain
        (λ x. x)
        config
        embedder
        (memory_store whole)
        model
        FoundIn
        4
        5
        thread
        (codes "sky")
        process)
      (StaysFrom whole decimal plain
        (λ x. x)
        config
        embedder
        (memory_store whole)
        model
        FoundIn
        4
        5
        thread
        (codes "sky")
        process)
      (generate_answer whole decimal plain
        (λ x. x)
        config
        embedder
        (memory_store whole)
        model
        4
        5
        thread
        (codes "sky")
        process)
unfolding SemanticCache.entries_of Dict.lookup
generate_answer-isolated_example =
    generate_answer-isolated whole decimal plain (λ x. x) config embedder (memory_store whole) model
      FoundIn 4 5 thread (codes "sky") process
      (hits-IsSourced (memory_store whole) ready library 1 (memory_store-IsTenantScoped whole))
      (λ c row visible. inr (c, row, visible, refl, refl, refl)) (λ workspace. tt)

stream_answer-Streams_example :
    let ((events, r), p') =
      stream_answer whole decimal plain
        (λ x. x)
        config
        embedder
        (memory_store whole)
        model
        4
        5
        thread
        (codes "sky")
        process in
    Streams whole decimal plain
      (λ x. x)
      config
      embedder
      (memory_store whole)
      model
      4
      5
      thread
      (codes "sky")
      process
      events
      r
      p'.world.committed
stream_answer-Streams_example =
    stream_answer-Streams whole decimal plain (λ x. x) config embedder (memory_store whole) model 4
      5 thread (codes "sky") process

run_agent-finishes_example :
    let (r, p') =
      run_agent whole decimal plain
        (λ x. x)
        config
        embedder
        (memory_store whole)
        model
        4
        5
        6
        1
        2
        thread
        (codes "sky")
        process in
    IsFinished whole decimal plain
      (λ x. x)
      config
      embedder
      (memory_store whole)
      model
      4
      5
      6
      1
      2
      thread
      (codes "sky")
      process
      r
      p'
    ⊎ ((e : Error) × (memory_of whole decimal plain
            (λ x. x)
            config
            embedder
            (memory_store whole)
            model
            thread
            (codes "sky")
            process
          ≡ err e)
        × (r ≡ err e)
        × (p' ≡ process))
run_agent-finishes_example =
    run_agent-finishes whole decimal plain (λ x. x) config embedder (memory_store whole) model 4 5 6
      1 2 thread (codes "sky") process

-- The run that the call returns.
abbrev recorded : AgentRun ℕ
recorded = record {
  id = 6;
  conversation_id = 3;
  status = completed;
  objective = codes "sky";
  steps =
      record {
        step = 1;
        thought = codes "Search the knowledge base for the objective.";
        action = codes "knowledge_base_search";
        observation = codes "Retrieved 1 passage(s).";
      }
      ∷ record {
        step = 2;
        thought = codes "Synthesise a grounded answer from the passages.";
        action = codes "final_answer";
        observation = codes "Answer generated.";
      }
      ∷ [];
  tool_calls =
      record {
        tool = codes "knowledge_base_search";
        input = codes "sky";
        result_count = 1;
        latency_ms = 1;
      }
      ∷ [];
  cost_usd = 0;
  latency_ms = 2;
  answer_message_id = some 5;
  error = none;
}

abbrev run_once : Result (AgentRun ℕ) × Process ℕ (Records ℕ)
run_once =
    run_agent whole decimal plain (λ x. x) config embedder (memory_store whole) model 4 5 6 1 2
      thread (codes "sky") process

run_once-recorded : run_once.0 ≡ ok recorded
unfolding run_agent dense memory_store pack assemble rerank sorted_desc fuse add_lists keyword
    Dict.lookup
run_once-recorded = refl

run_agent-IsListed_example :
    IsListed whole decimal plain
      (λ x. x)
      config
      embedder
      (memory_store whole)
      model
      4
      5
      6
      1
      2
      thread
      (codes "sky")
      process
      recorded
      run_once.1.world.committed
      3
run_agent-IsListed_example =
    run_agent-IsListed whole decimal plain (λ x. x) config embedder (memory_store whole) model 4 5 6
      1 2 thread (codes "sky") process recorded run_once.1 3 refl
      (ap (λ r. (r, run_once.1)) run_once-recorded)
