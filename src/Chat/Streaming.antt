-- ===== src/Chat/Streaming.antt =====
-- What a client sees of a streamed answer, and what is kept of it.
use mathlib.Core.List.{append-nil, append_assoc}
use nexus_ai.Base.{
  ℕ, ◌≡◌, refl, ap, Option, none, some, List, [], ◌∷◌, ◌++◌, map, ◌⊎◌, inl, inr, Error, Result, ok,
  err,
}
use nexus_ai.Base.Float.{FloatOps}
use nexus_ai.Base.Text.{Text, join}
use nexus_ai.Config.{Settings}
use nexus_ai.Database.{Db, Conversation, Citation}
use nexus_ai.Providers.{EmbeddingProvider, LlmProvider, Platform}
use nexus_ai.VectorStore.{VectorStore}
use nexus_ai.Retrieval.{RetrievalResult}
use nexus_ai.Retrieval.Whole.{retrieve}
use nexus_ai.Ingestion.{commit}
use nexus_ai.Process.{Process, add_message, commit_session}
use nexus_ai.Chat.{
  Event, token, done, stream_answer, relay, finish_stream, search_workspace, user_turn,
  assistant_turn, prompt,
}

-- The texts of the token events, joined.
unfoldable pub shown : {F : Type 0} → List (Event F) → Text
shown [] = []
shown (token t ∷ events) = t ++ shown events
shown (done id citations ∷ events) = shown events

shown-append_done :
    {F : Type 0} (deltas : List Text) (id : ℕ) (citations : List (Citation F))
    → shown (map token deltas ++ done id citations ∷ []) ≡ join [] deltas
unfolding shown join
shown-append_done [] id citations = refl
shown-append_done (d ∷ []) id citations = append-nil d
shown-append_done (d ∷ e ∷ rest) id citations =
    ap (λ t. d ++ t) (shown-append_done (e ∷ rest) id citations)

module _ {F S : Type 0} (fl : FloatOps F) (show : F → Text) (platform : Platform) (round6 : F → F)
    (settings : Settings F) (embedder : EmbeddingProvider F) (vector_store : VectorStore F S)
    (llm : LlmProvider) (turn_id answer_id : ℕ) (conversation : Conversation) (message : Text)
    (p : Process F S) where
  -- The two ends of a stream.
  abbrev pub Streams : List (Event F) → Result (Unit {0}) → Db F → Type 0
  Streams events r db =
      ((deltas : List Text) × (citations : List (Citation F)) × (r ≡ ok tt)
        × (events ≡ map token deltas ++ done answer_id citations ∷ [])
        × (db ≡ record p.world.session {
          messages =
              p.world.session.messages
              ++ user_turn turn_id conversation.id message
                ∷ assistant_turn answer_id conversation.id (shown events) citations
                ∷ [];
        }))
      ⊎ ((e : Error) × (deltas : List Text) × (r ≡ err e)
          × (events ≡ map token deltas)
          × (db ≡ p.world.committed))

  relay-Streams :
      (result : RetrievalResult F) (s : S) (x : List Text × Option Error)
      → let ((events, r), p') =
          relay fl show platform round6 settings embedder vector_store llm answer_id conversation
            message result x
            (record (add_message (user_turn turn_id conversation.id message) p) {
              world = record (add_message (user_turn turn_id conversation.id message) p).world {
                vectors = s;
              };
            }) in
        Streams events r p'.world.committed
  unfolding relay finish_stream add_message commit_session commit
  relay-Streams result s (deltas, some e) = inr (e, deltas, refl, refl, refl)
  relay-Streams result s (deltas, none) = inl (
    deltas,
    result.citations,
    refl,
    refl,
    rw (shown-append_done deltas answer_id result.citations) (
        ap (λ ms. record p.world.session { messages = ms })
          (append_assoc p.world.session.messages _ _)),
  )

  found-Streams :
      (x : Result (RetrievalResult F) × S)
      → let q = add_message (user_turn turn_id conversation.id message) p in
        let p1 = record q { world = record q.world { vectors = x.1 } } in
        let ((events, r), p') : (List (Event F) × Result (Unit {0})) × Process F S = elim x.0 [
          | err e ↦ (([], err e), p1)
          | ok result ↦
              relay fl show platform round6 settings embedder vector_store llm answer_id
                conversation message result
                (llm.stream (prompt result.context message))
                p1
        ] in
        Streams events r p'.world.committed
  unfolding add_message
  found-Streams (err e, s) = inr (e, [], refl, refl, refl)
  found-Streams (ok result, s) = relay-Streams result s (llm.stream (prompt result.context message))

  -- A streamed answer either ends, and is kept whole: the last event is `done` with the id and the
  -- citations of the stored turn, and the tokens before it joined are its text; the user's turn and
  -- this one are all that is added and committed. Or it breaks off with an exception after some
  -- tokens, and what is committed is what was committed before.
  pub stream_answer-Streams :
      let ((events, r), p') =
        stream_answer fl show platform round6 settings embedder vector_store llm turn_id answer_id
          conversation message p in
      Streams events r p'.world.committed
  unfolding stream_answer search_workspace add_message
  stream_answer-Streams =
      let p1 = add_message (user_turn turn_id conversation.id message) p in
      found-Streams (
        retrieve fl platform round6 embedder vector_store settings p1.world.session
          conversation.workspace_id message p1.world.vectors)
