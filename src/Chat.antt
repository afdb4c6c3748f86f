-- ===== src/Chat.antt =====
-- app/services/chat_service.py: answer a question from the workspace's documents, and keep both
-- turns. The `uuid4`s of the two turns are arguments.
pub mod Turns
pub mod Streaming
pub mod Isolation
use nexus_ai.Base.{
  ℕ, ◌+◌, Option, none, some, List, [], ◌∷◌, ◌++◌, map, if◌then◌else◌, Exec, Result, ok, err, Error,
  and_then, gets, lift, modify, pure, ◌>>=◌, ◌>>◌, nat_eq,
}
use nexus_ai.Base.Float.{FloatOps}
use nexus_ai.Base.Text.{Text, codes, word_count, join}
use nexus_ai.Config.{Settings}
use nexus_ai.Database.{Db, Conversation, Message, MessageRole, Citation}
use nexus_ai.Providers.{
  EmbeddingProvider, LlmProvider, LlmMessage, LlmResult, total_tokens, Platform,
}
use nexus_ai.VectorStore.{VectorStore}
use nexus_ai.SemanticCache.{CachedAnswer, SemanticCache, lookup, store}
use nexus_ai.AgentMemory.{newline}
use nexus_ai.Retrieval.{RetrievalResult, the_only}
use nexus_ai.Retrieval.Whole.{retrieve}
use nexus_ai.Ingestion.{World, on_vectors}
use nexus_ai.Process.{Process, on_world, commit_session, add_message, count_usage, record_llm_usage}

-- `context or "(none)"`
abbrev pub or_none : Text → Text
or_none [] = codes "(none)"
or_none (c ∷ s) = c ∷ s

-- `_SYSTEM_TEMPLATE.format(context=…)`
unfoldable pub system_prompt : Text → Text
system_prompt context =
    codes "You are NexusAI, a helpful assistant. Answer the user's question using "
    ++ (codes "ONLY the context below. Cite sources inline as [n]. If the context does "
        ++ (codes "not contain the answer, say you don't have enough information."
            ++ (newline ++ (newline ++ (codes "Context:" ++ (newline ++ or_none context))))))

unfoldable pub prompt : Text → Text → List LlmMessage
unfolding system_prompt
prompt context message =
    record { role = codes "system"; content = system_prompt context }
    ∷ record { role = codes "user"; content = message }
    ∷ []

-- `citations or None`
abbrev pub or_null : {F : Type 0} → List (Citation F) → Option (List (Citation F))
or_null [] = none
or_null (c ∷ cs) = some (c ∷ cs)

unfoldable pub user_turn : {F : Type 0} → ℕ → ℕ → Text → Message F
unfolding word_count
user_turn new_id conversation message = record {
  id = new_id;
  conversation_id = conversation;
  role = MessageRole.user;
  content = message;
  tokens = word_count message;
  citations = none;
}

unfoldable pub assistant_turn : {F : Type 0} → ℕ → ℕ → Text → List (Citation F) → Message F
unfolding word_count
assistant_turn new_id conversation content citations = record {
  id = new_id;
  conversation_id = conversation;
  role = MessageRole.assistant;
  content = content;
  tokens = word_count content;
  citations = or_null citations;
}

-- What `stream_answer` yields.
pub data Event (F : Type 0) : Type 0 where
  token : Text → Event F
  done : ℕ → List (Citation F) → Event F

module _ {F S : Type 0} where
  -- `_persist_assistant`
  unfoldable pub persist_assistant :
      ℕ → ℕ → Text → List (Citation F) → Exec (Process F S) (Message F)
  unfolding assistant_turn add_message commit_session
  persist_assistant new_id conversation content citations p =
      let turn = assistant_turn new_id conversation content citations in
      (ok turn, commit_session (add_message turn p))

module _ {F S : Type 0} (fl : FloatOps F) (show : F → Text) (platform : Platform) (round6 : F → F)
    (settings : Settings F) (embedder : EmbeddingProvider F) (vector_store : VectorStore F S)
    (llm : LlmProvider) where
  -- `query_vector`, which is `None` without a cache
  unfoldable pub query_vector : Text → Result (Option (List F))
  query_vector message =
      if settings.semantic_cache_enabled
      then and_then (embedder.embed (message ∷ []))
          (λ vectors. and_then (the_only fl platform vectors) (λ vector. ok (some vector)))
      else ok none

  unfoldable pub cached_answer : Option (List F) → ℕ → Process F S → Option (CachedAnswer F)
  unfolding lookup
  cached_answer none workspace p = none
  cached_answer (some vector) workspace p =
      lookup fl p.cache workspace vector settings.semantic_cache_threshold

  unfoldable pub store_answer : Option (List F) → ℕ → CachedAnswer F → Process F S → Process F S
  unfolding store
  store_answer none workspace answer p = p
  store_answer (some vector) workspace answer p = record p {
    cache = store p.cache workspace vector answer;
  }

  -- `retrieve` reads the session of the request.
  unfoldable pub search_workspace : ℕ → Text → Exec (Process F S) (RetrievalResult F)
  unfolding retrieve
  search_workspace workspace query p =
      on_world
        (on_vectors (
          retrieve fl platform round6 embedder vector_store settings p.world.session workspace
            query))
        p

  -- From a miss of the cache on.
  unfoldable pub fresh_answer :
      ℕ → Conversation → Text → Option (List F) → Exec (Process F S) (Message F)
  unfolding search_workspace prompt record_llm_usage store_answer persist_assistant
  fresh_answer answer_id conversation message vector = do
    result ← search_workspace conversation.workspace_id message
    completion ← lift (llm.complete (prompt result.context message))
    modify (count_usage fl show settings (total_tokens completion))
    modify (
        store_answer vector conversation.workspace_id
          (record { answer = completion.text; citations = result.citations }))
    persist_assistant answer_id conversation.id completion.text result.citations

  abbrev pub answer_by :
      ℕ
      → Conversation
      → Text
      → Option (List F)
      → Option (CachedAnswer F)
      → Exec (Process F S) (Message F)
  answer_by answer_id conversation message vector none =
      fresh_answer answer_id conversation message vector
  answer_by answer_id conversation message vector (some hit) =
      persist_assistant answer_id conversation.id hit.answer hit.citations

  unfoldable pub generate_answer : ℕ → ℕ → Conversation → Text → Exec (Process F S) (Message F)
  unfolding add_message user_turn query_vector cached_answer fresh_answer persist_assistant
  generate_answer turn_id answer_id conversation message = do
    modify (add_message (user_turn turn_id conversation.id message))
    vector ← lift (query_vector message)
    hit ← gets (cached_answer vector conversation.workspace_id)
    answer_by answer_id conversation message vector hit

  -- After the stream: the counters, the assistant turn and the last event.
  unfoldable pub finish_stream :
      ℕ
      → Conversation
      → Text
      → RetrievalResult F
      → Text
      → Process F S
      → List (Event F) × Process F S
  unfolding word_count system_prompt record_llm_usage assistant_turn add_message commit_session
  finish_stream answer_id conversation message result text p =
      let used = word_count (system_prompt result.context) + word_count message + word_count text in
      let turn = assistant_turn answer_id conversation.id text result.citations in
      (
        done answer_id result.citations ∷ [],
        commit_session (add_message turn (count_usage fl show settings used p)),
      )

  -- The deltas of the model, then what comes after them, unless the stream broke off.
  unfoldable pub relay :
      ℕ
      → Conversation
      → Text
      → RetrievalResult F
      → List Text × Option Error
      → Process F S
      → (List (Event F) × Result (Unit {0})) × Process F S
  unfolding join finish_stream
  relay answer_id conversation message result (deltas, some e) p = ((map token deltas, err e), p)
  relay answer_id conversation message result (deltas, none) p =
      let (last, p') = finish_stream answer_id conversation message result (join [] deltas) p in
      ((map token deltas ++ last, ok tt), p')

  -- The events that were yielded, and how the generator ended.
  unfoldable pub stream_answer :
      ℕ → ℕ → Conversation → Text → Process F S → (List (Event F) × Result (Unit {0})) × Process F S
  unfolding add_message user_turn search_workspace prompt relay
  stream_answer turn_id answer_id conversation message p =
      let (found, p1) =
        search_workspace conversation.workspace_id message
          (add_message (user_turn turn_id conversation.id message) p) in
      elim found [
        | err e ↦ (([], err e), p1)
        | ok result ↦
            relay answer_id conversation message result (llm.stream (prompt result.context message))
              p1
      ]
