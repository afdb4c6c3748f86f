-- ===== src/Chat/Isolation.antt =====
-- Where the citations of an answer come from, one out of the answer cache included.
use nexus_ai.Base.{
  ℕ, ◌≡◌, refl, sym, true, Option, none, some, List, [], ◌∷◌, ◌++◌, inl, inr, Error, All, Any,
  All-append, push_bounded, tail, nat_beq, nat_eq, arith, Bool-cases, subst, ltb, length,
}
use nexus_ai.Base.Float.{FloatOps}
use nexus_ai.Base.Text.{Text}
use nexus_ai.Config.{Settings}
use nexus_ai.Database.{Chunk, Citation, Conversation, Message}
use nexus_ai.Providers.{EmbeddingProvider, LlmProvider, Platform, total_tokens}
use nexus_ai.VectorStore.{VectorStore}
use nexus_ai.Similarity.{cosine}
use nexus_ai.SemanticCache.{
  SemanticCache, Entry, CachedAnswer, entries_of, best_from, lookup, store,
}
use nexus_ai.SemanticCache.Eviction.{entries_of-store}
use nexus_ai.Retrieval.{is_visible}
use nexus_ai.Retrieval.Sources.{HitsFrom, retrieve-From}
use nexus_ai.Retrieval.Whole.{retrieve}
use nexus_ai.Process.{Process, add_message, count_usage}
use nexus_ai.Process.Calls.{Ends, then-lift, then-on_vectors}
use nexus_ai.Chat.{
  generate_answer, fresh_answer, answer_by, user_turn, assistant_turn, persist_assistant,
  query_vector, cached_answer, store_answer, search_workspace, prompt, or_null,
}

All-tail : {A : Type 0} (P : A → Type 0) (xs : List A) → All P xs → All P (tail xs)
All-tail P [] h = h
All-tail P (x ∷ xs) h = h.1

All-push_bounded :
    {A : Type 0} (P : A → Type 0) (most : ℕ) (x : A) (xs : List A)
    → P x
    → All P xs
    → All P (push_bounded most x xs)
unfolding push_bounded
All-push_bounded P most x xs p h =
    let all = All-append P xs (x ∷ []) h (p, tt) in
    elim (Bool-cases (ltb most (length (xs ++ x ∷ [])))) [
      | inl full ↦ rw full (All-tail P (xs ++ x ∷ []) all)
      | inr room ↦ rw room all
    ]

module _ {F : Type 0} (Q : ℕ → ℕ → ℕ → Text → Type 0) where
  abbrev pub CitedFrom : ℕ → List (Citation F) → Type 0
  CitedFrom workspace = All (λ c. Q workspace c.chunk_id c.document_id c.text)

  -- Every cached answer of a workspace cites passages with `Q` of that workspace.
  abbrev pub CachesFrom : SemanticCache F (CachedAnswer F) → Type 0
  CachesFrom cache =
      (workspace : ℕ)
      → All (λ entry. CitedFrom workspace entry.value.citations) (entries_of cache workspace)

  store-CachesFrom :
      (cache : SemanticCache F (CachedAnswer F)) (workspace : ℕ) (vector : List F)
      (answer : CachedAnswer F)
      → CitedFrom workspace answer.citations
      → CachesFrom cache
      → CachesFrom (store cache workspace vector answer)
  store-CachesFrom cache workspace vector answer cited from w =
      let entry : Entry F (CachedAnswer F) = record { vector = vector; value = answer } in
      let P : Entry F (CachedAnswer F) → Type 0 = λ e. CitedFrom w e.value.citations in
      subst (All P) (sym (entries_of-store cache workspace w entry))
        (elim (Bool-cases (nat_beq workspace w)) [
          | inl same ↦
              let here : CitedFrom w answer.citations =
                subst (λ u. CitedFrom u answer.citations) (ground arith) cited in
              rw same
                (All-push_bounded P cache.max_entries entry (entries_of cache w) here (from w))
          | inr other ↦ rw other (from w)
        ])

  value-From :
      (workspace : ℕ) (v u : CachedAnswer F)
      → some v ≡ some u
      → CitedFrom workspace v.citations
      → CitedFrom workspace u.citations
  value-From workspace v u same h =
      let e : v ≡ u = ground arith in
      subst (λ (w : CachedAnswer F). CitedFrom workspace w.citations) e h

  best_from-From :
      (fl : FloatOps F) (workspace : ℕ) (query : List F) (floor : F) (v : CachedAnswer F)
      (best : Option (CachedAnswer F)) (entries : List (Entry F (CachedAnswer F)))
      → ((u : CachedAnswer F) → best ≡ some u → CitedFrom workspace u.citations)
      → All (λ entry. CitedFrom workspace entry.value.citations) entries
      → best_from fl query floor best entries ≡ some v
      → CitedFrom workspace v.citations
  unfolding best_from
  best_from-From fl workspace query floor v best [] from h e = from v e
  best_from-From fl workspace query floor v best (x ∷ rest) from h e =
      elim (Bool-cases (fl.leq floor (cosine fl query x.vector))) [
        | inl better ↦
            best_from-From fl workspace query (cosine fl query x.vector) v (some x.value) rest
              (λ u same. value-From workspace x.value u same h.0) h.1 (rw better at e)
        | inr worse ↦ best_from-From fl workspace query floor v best rest from h.1 (rw worse at e)
      ]

module _ {F S : Type 0} (fl : FloatOps F) (show : F → Text) (platform : Platform) (round6 : F → F)
    (settings : Settings F) (embedder : EmbeddingProvider F) (vector_store : VectorStore F S)
    (llm : LlmProvider) (Q : ℕ → ℕ → ℕ → Text → Type 0) where
  cached_answer-From :
      (vector : Option (List F)) (workspace : ℕ) (p : Process F S) (v : CachedAnswer F)
      → CachesFrom Q p.cache
      → cached_answer fl show platform round6 settings embedder vector_store llm vector workspace p
        ≡ some v
      → CitedFrom {F = F} Q workspace v.citations
  unfolding cached_answer lookup
  cached_answer-From none workspace p v from e = ground arith
  cached_answer-From (some vector) workspace p v from e =
      best_from-From Q fl workspace vector settings.semantic_cache_threshold v none
        (entries_of p.cache workspace) (λ u none_is. ground arith) (from workspace) e

  store_answer-From :
      (vector : Option (List F)) (workspace : ℕ) (answer : CachedAnswer F) (p : Process F S)
      → CitedFrom Q workspace answer.citations
      → CachesFrom Q p.cache
      → CachesFrom Q
          (store_answer fl show platform round6 settings embedder vector_store llm vector workspace
            answer p).cache
  unfolding store_answer
  store_answer-From none workspace answer p cited from = from
  store_answer-From (some vector) workspace answer p cited from =
      store-CachesFrom Q p.cache workspace vector answer cited from

  abbrev pub CitesFrom : ℕ → Option (List (Citation F)) → Type 0
  CitesFrom workspace none = Unit
  CitesFrom workspace (some citations) = CitedFrom Q workspace citations

  or_null-From :
      (workspace : ℕ) (citations : List (Citation F))
      → CitedFrom Q workspace citations
      → CitesFrom workspace (or_null citations)
  or_null-From workspace [] h = tt
  or_null-From workspace (c ∷ cs) h = h

  module _ (turn_id answer_id : ℕ) (conversation : Conversation) (message : Text)
      (p : Process F S) where
    abbrev pub IsFrom : Message F → Process F S → Type 0
    IsFrom turn p' = CitesFrom conversation.workspace_id turn.citations × CachesFrom Q p'.cache

    abbrev pub StaysFrom : Error → Process F S → Type 0
    StaysFrom e p' = CachesFrom Q p'.cache

    answer_by-From :
        (vector : Option (List F)) (hit : Option (CachedAnswer F))
        → ((v : CachedAnswer F) → hit ≡ some v → CitedFrom Q conversation.workspace_id v.citations)
        → HitsFrom fl platform
            (Q conversation.workspace_id)
            vector_store
            conversation.workspace_id
            (vector_store.ensure_ready embedder.dimension p.world.vectors).1
        → ((c : Chunk)
            → Any (λ row. row ≡ c) p.world.session.chunks
            → is_visible p.world.session conversation.workspace_id c ≡ true
            → Q conversation.workspace_id c.id c.document_id c.text)
        → CachesFrom Q p.cache
        → Ends IsFrom StaysFrom (
            answer_by fl show platform round6 settings embedder vector_store llm answer_id
              conversation message vector hit
              (add_message (user_turn turn_id conversation.id message) p))
    unfolding persist_assistant assistant_turn fresh_answer search_workspace add_message is_visible
    answer_by-From vector (some hit) from near seen kept = inl (
      assistant_turn answer_id conversation.id hit.answer hit.citations,
      refl,
      (or_null-From conversation.workspace_id hit.citations (from hit refl), kept),
    )
    answer_by-From vector none from near seen kept =
        let workspace = conversation.workspace_id in
        let p1 = add_message (user_turn turn_id conversation.id message) p in
        then-on_vectors IsFrom StaysFrom _ p1
          (retrieve fl platform round6 embedder vector_store settings p1.world.session workspace
            message)
          (λ result s found.
            let cited =
              retrieve-From fl platform (Q workspace) round6 vector_store embedder settings
                p1.world.session workspace message p1.world.vectors s result near seen found in
            then-lift IsFrom StaysFrom _ _ (llm.complete (prompt result.context message))
              (λ completion is.
                let p2 =
                  count_usage fl show settings (total_tokens completion)
                    (record p1 { world = record p1.world { vectors = s } }) in
                let answer : CachedAnswer F = record {
                  answer = completion.text;
                  citations = result.citations;
                } in
                inl (
                  assistant_turn answer_id conversation.id completion.text result.citations,
                  refl,
                  (
                    or_null-From workspace result.citations cited,
                    store_answer-From vector workspace answer p2 cited kept,
                  ),
                ))
              (λ e. kept))
          (λ e s. kept)

    -- Let `Q` be any property of a passage in a workspace. Where every hit of the vector store in
    -- the conversation's workspace has it, and every chunk there of a document that is not deleted,
    -- and every citation of an answer in the cache, in the workspace of that answer: the returned
    -- turn cites only passages of the conversation's workspace with `Q`, be it new or out of the
    -- cache; and however the call ends, the cache has answers with such citations only.
    pub generate_answer-isolated :
        HitsFrom fl platform
          (Q conversation.workspace_id)
          vector_store
          conversation.workspace_id
          (vector_store.ensure_ready embedder.dimension p.world.vectors).1
        → ((c : Chunk)
            → Any (λ row. row ≡ c) p.world.session.chunks
            → is_visible p.world.session conversation.workspace_id c ≡ true
            → Q conversation.workspace_id c.id c.document_id c.text)
        → CachesFrom Q p.cache
        → Ends IsFrom StaysFrom (
            generate_answer fl show platform round6 settings embedder vector_store llm turn_id
              answer_id conversation message p)
    unfolding generate_answer add_message cached_answer
    generate_answer-isolated near seen kept =
        then-lift IsFrom StaysFrom _ _
          (query_vector fl show platform round6 settings embedder vector_store llm message)
          (λ vector is.
            answer_by-From vector _
              (λ v hit.
                cached_answer-From vector conversation.workspace_id
                  (add_message (user_turn turn_id conversation.id message) p) v kept hit)
              near seen kept)
          (λ e. kept)
