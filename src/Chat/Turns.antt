-- ===== src/Chat/Turns.antt =====
-- What a question leaves in the database.
use mathlib.Core.List.{append_assoc}
use nexus_ai.Base.{
  ℕ, ◌≡◌, refl, ap, ◌∙◌, Option, none, some, List, [], ◌∷◌, ◌++◌, ◌⊎◌, inl, inr, Error, Result, ok,
  err,
}
use nexus_ai.Base.Float.{FloatOps}
use nexus_ai.Base.Text.{Text, word_count}
use nexus_ai.Config.{Settings}
use nexus_ai.Database.{Db, Conversation, Message, MessageRole, Citation}
use nexus_ai.Providers.{EmbeddingProvider, LlmProvider, Platform, total_tokens}
use nexus_ai.VectorStore.{VectorStore}
use nexus_ai.SemanticCache.{CachedAnswer}
use nexus_ai.Retrieval.Whole.{retrieve}
use nexus_ai.Ingestion.{commit, rollback}
use nexus_ai.Process.{Process, in_request, add_message, commit_session, count_usage}
use nexus_ai.Process.Calls.{Ends, then-lift, then-on_vectors}
use nexus_ai.Chat.{
  generate_answer, fresh_answer, answer_by, user_turn, assistant_turn, persist_assistant,
  query_vector, store_answer, search_workspace, prompt,
}

module _ {F S : Type 0} (fl : FloatOps F) (show : F → Text) (platform : Platform) (round6 : F → F)
    (settings : Settings F) (embedder : EmbeddingProvider F) (vector_store : VectorStore F S)
    (llm : LlmProvider) where
  store_answer-world :
      (vector : Option (List F)) (workspace : ℕ) (answer : CachedAnswer F) (p : Process F S)
      → (store_answer fl show platform round6 settings embedder vector_store llm vector workspace
          answer p).world
        ≡ p.world
  unfolding store_answer
  store_answer-world none workspace answer p = refl
  store_answer-world (some vector) workspace answer p = refl

  module _ (turn_id answer_id : ℕ) (conversation : Conversation) (message : Text)
      (p : Process F S) where
    -- The answered turn.
    abbrev IsAnswered : Message F → Process F S → Type 0
    IsAnswered turn p' =
        (p'.world.files ≡ p.world.files)
        × (p'.world.committed ≡ p'.world.session)
        × (turn.role ≡ MessageRole.assistant)
        × (turn.conversation_id ≡ conversation.id)
        × (turn.tokens ≡ word_count turn.content)
        × (p'.world.session ≡ record p.world.session {
          messages =
              p.world.session.messages ++ user_turn turn_id conversation.id message ∷ turn ∷ [];
        })

    abbrev IsUnchanged : Error → Process F S → Type 0
    IsUnchanged e p' = (p'.world.files ≡ p.world.files) × (p'.world.committed ≡ p.world.committed)

    persist-IsAnswered :
        (content : Text) (citations : List (Citation F)) (q : Process F S) (s : S)
        → q.world
          ≡ record (add_message (user_turn turn_id conversation.id message) p).world { vectors = s }
        → Ends IsAnswered IsUnchanged
            (persist_assistant answer_id conversation.id content citations q)
    unfolding persist_assistant add_message commit_session commit assistant_turn
    persist-IsAnswered content citations q s same =
        let turn = assistant_turn answer_id conversation.id content citations in
        inl (
          turn,
          refl,
          (
            ap (λ w. w.files) same,
            refl,
            refl,
            refl,
            refl,
            ap (λ w. record w.session { messages = w.session.messages ++ turn ∷ [] }) same
                ∙ ap (λ ms. record p.world.session { messages = ms })
                    (append_assoc p.world.session.messages _ (turn ∷ [])),
          ),
        )

    answer_by-Ends :
        (vector : Option (List F)) (hit : Option (CachedAnswer F))
        → Ends IsAnswered IsUnchanged (
            answer_by fl show platform round6 settings embedder vector_store llm answer_id
              conversation message vector hit
              (add_message (user_turn turn_id conversation.id message) p))
    unfolding fresh_answer search_workspace add_message
    answer_by-Ends vector (some hit) =
        persist-IsAnswered hit.answer hit.citations
          (add_message (user_turn turn_id conversation.id message) p) p.world.vectors refl
    answer_by-Ends vector none =
        let p1 = add_message (user_turn turn_id conversation.id message) p in
        then-on_vectors IsAnswered IsUnchanged _ p1
          (retrieve fl platform round6 embedder vector_store settings p1.world.session
            conversation.workspace_id message)
          (λ result s found.
            then-lift IsAnswered IsUnchanged _ _ (llm.complete (prompt result.context message))
              (λ completion is.
                let p2 =
                  count_usage fl show settings (total_tokens completion)
                    (record p1 { world = record p1.world { vectors = s } }) in
                let answer : CachedAnswer F = record {
                  answer = completion.text;
                  citations = result.citations;
                } in
                persist-IsAnswered completion.text result.citations
                  (store_answer fl show platform round6 settings embedder vector_store llm vector
                    conversation.workspace_id answer p2)
                  s (store_answer-world vector conversation.workspace_id answer p2))
              (λ e. (refl, refl)))
          (λ e s. (refl, refl))

    generate_answer-Ends : Ends IsAnswered IsUnchanged (
        generate_answer fl show platform round6 settings embedder vector_store llm turn_id answer_id
          conversation message p)
    unfolding generate_answer add_message
    generate_answer-Ends =
        then-lift IsAnswered IsUnchanged _ _
          (query_vector fl show platform round6 settings embedder vector_store llm message)
          (λ vector is. answer_by-Ends vector _) (λ e. (refl, refl))

    -- What an answered and a refused question come to, in the database.
    abbrev pub Settles : Result (Message F) → Db F → Type 0
    Settles r db =
        ((turn : Message F) × (r ≡ ok turn)
          × (turn.role ≡ MessageRole.assistant)
          × (turn.conversation_id ≡ conversation.id)
          × (turn.tokens ≡ word_count turn.content)
          × (db ≡ record p.world.session {
            messages =
                p.world.session.messages ++ user_turn turn_id conversation.id message ∷ turn ∷ [];
          }))
        ⊎ ((e : Error) × (r ≡ err e) × (db ≡ p.world.committed))

    in_request-Settles :
        (x : Result (Message F) × Process F S)
        → Ends IsAnswered IsUnchanged x
        → let (r, p') = in_request (λ q. x) p in
          (p'.world.files ≡ p.world.files)
          × (p'.world.session ≡ p'.world.committed)
          × Settles r p'.world.committed
    unfolding in_request rollback
    in_request-Settles (r, q) (inl (turn, is, (files, kept, role, of, tokens, rows))) =
        (files, refl, inl (turn, is, role, of, tokens, kept ∙ rows))
    in_request-Settles (r, q) (inr (e, is, (files, kept))) = (files, refl, inr (e, is, kept))

    -- A request that asks a question changes no file, and leaves nothing that is not committed.
    -- If it returns a turn, that is one of the assistant in the conversation which counts its own
    -- words, and the user's turn and it are the only rows that the request adds. If it raises,
    -- what is committed is what was committed before.
    pub generate_answer-turns :
        let (r, p') =
          in_request
            (generate_answer fl show platform round6 settings embedder vector_store llm turn_id
              answer_id conversation message)
            p in
        (p'.world.files ≡ p.world.files)
        × (p'.world.session ≡ p'.world.committed)
        × Settles r p'.world.committed
    unfolding in_request
    generate_answer-turns =
        in_request-Settles
          (generate_answer fl show platform round6 settings embedder vector_store llm turn_id
            answer_id conversation message p)
          generate_answer-Ends
