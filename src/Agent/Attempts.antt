-- ===== src/Agent/Attempts.antt =====
-- What the `try` block of a run leaves behind, where it returns and where it raises.
use nexus_ai.Base.{
  ℕ, suc, ◌+◌, ◌≤◌, ◌≡◌, refl, ap, ◌∙◌, List, [], ◌∷◌, ◌++◌, ◌⊎◌, inl, inr, Error, Result, ok, err,
  length, length-append, ltb, if◌then◌else◌, arith, Bool-cases, and_then, lift, modify, ◌>>=◌,
}
use nexus_ai.Base.Float.{FloatOps}
use nexus_ai.Base.Text.{Text, codes}
use nexus_ai.Config.{Settings}
use nexus_ai.Database.{Conversation, Step}
use nexus_ai.Providers.{EmbeddingProvider, LlmProvider, LlmMessage, LlmResult, Platform}
use nexus_ai.VectorStore.{VectorStore}
use nexus_ai.Retrieval.{RetrievalResult}
use nexus_ai.Retrieval.Whole.{retrieve}
use nexus_ai.Process.{Process}
use nexus_ai.Process.Calls.{Ends, then_call}
use nexus_ai.Agent.{
  Trace, nothing_done, on_process, attempt_run, maybe_use_tool, use_tool, agent_system_prompt,
  run_tool, record_call, record_answer,
}

-- The steps carry the numbers from `n` on.
abbrev pub IsNumbered : ℕ → List Step → Type 0
IsNumbered n [] = Unit
IsNumbered n (s ∷ ss) = (s.step ≡ n) × IsNumbered (suc n) ss

append-IsNumbered :
    (n : ℕ) (ss : List Step) (s : Step)
    → IsNumbered n ss
    → s.step ≡ n + length ss
    → IsNumbered n (ss ++ s ∷ [])
append-IsNumbered n [] s h e = (omega (arith, e), tt)
append-IsNumbered n (x ∷ ss) s h e = (h.0, append-IsNumbered (suc n) ss s h.1 (omega (arith, e)))

module _ {F S : Type 0} (fl : FloatOps F) (show : F → Text) (platform : Platform) (round6 : F → F)
    (settings : Settings F) (embedder : EmbeddingProvider F) (vector_store : VectorStore F S)
    (llm : LlmProvider) where
  -- The block changed nothing that is stored, and its steps are numbered.
  abbrev pub IsTraced : Process F S → ℕ → Trace F S → Type 0
  IsTraced p most t =
      (t.process.world.session ≡ p.world.session)
      × (t.process.world.files ≡ p.world.files)
      × (t.process.memory ≡ p.memory)
      × IsNumbered 1 t.steps
      × (length t.steps ≤ most)

  -- The prompt of the agent: a system text, and the objective as the user's.
  abbrev pub asked : Text → Text → List LlmMessage
  asked system objective =
      record { role = codes "system"; content = system }
      ∷ record { role = codes "user"; content = objective }
      ∷ []

  -- The model completed the prompt with the answer of the trace.
  abbrev pub IsAnswered : Text → Text → ℕ → Type 0
  IsAnswered objective text tokens =
      (system : Text) × (completion : LlmResult) × (llm.complete (asked system objective)
        ≡ ok completion)
      × (text ≡ completion.text)
      × (tokens ≡ completion.prompt_tokens + completion.completion_tokens)

  -- The retrieval for the objective or the model raised it.
  abbrev pub IsRaised : Process F S → Conversation → Text → Error → Type 0
  IsRaised p conversation objective e =
      ((retrieve fl platform round6 embedder vector_store settings p.world.session
          conversation.workspace_id objective p.world.vectors).0
        ≡ err e)
      ⊎ ((system : Text) × (llm.complete (asked system objective) ≡ err e))

  step-IsTraced :
      (p : Process F S) (most : ℕ) (t t' : Trace F S) (s : Step)
      → IsTraced p most t
      → s.step ≡ length t.steps + 1
      → t'.process.world ≡ t.process.world
      → t'.process.memory ≡ t.process.memory
      → t'.steps ≡ t.steps ++ s ∷ []
      → IsTraced p (most + 1) t'
  step-IsTraced p most t t' s (a, b, c, numbered, few) e same memory grown = (
    ap (λ w. w.session) same ∙ a,
    ap (λ w. w.files) same ∙ b,
    memory ∙ c,
    rw grown (append-IsNumbered 1 t.steps s numbered (omega (arith, e))),
    rw grown (omega (arith, length-append t.steps (s ∷ []))),
  )

  -- The tool takes a step if two are allowed.
  abbrev pub tool_steps : ℕ
  tool_steps = if ltb 1 settings.agent_max_steps then 1 else 0

  found_tool-Ends :
      (x : Result (RetrievalResult F) × S) (tool_ms : ℕ) (objective : Text) (p : Process F S)
      → Ends
          (λ u t. IsTraced p 1 t)
          (λ e t. IsTraced p 0 t × (x.0 ≡ err e))
          ((on_process (λ q. (
            and_then x.0 (λ r. ok (record { output = r.context; passages = r.citations })),
            record q { world = record q.world { vectors = x.1 } },
          ))
              >>= λ result. modify (record_call tool_ms objective result))
            (nothing_done p))
  unfolding record_call
  found_tool-Ends (ok r, s) tool_ms objective p =
      inl (tt, refl, (refl, refl, refl, (refl, tt), omega arith))
  found_tool-Ends (err e, s) tool_ms objective p =
      inr (e, refl, ((refl, refl, refl, tt, omega arith), refl))

  -- The tool raised what the retrieval did.
  abbrev IsToolRaised : Process F S → Conversation → Text → Error → Type 0
  IsToolRaised p conversation objective e =
      (retrieve fl platform round6 embedder vector_store settings p.world.session
        conversation.workspace_id objective p.world.vectors).0
      ≡ err e

  use_tool-Ends :
      (tool_ms : ℕ) (conversation : Conversation) (objective : Text) (p : Process F S)
      → Ends
          (λ u t. IsTraced p 1 t)
          (λ e t. IsTraced p 0 t × IsToolRaised p conversation objective e)
          (use_tool fl show platform round6 settings embedder vector_store llm tool_ms conversation
            objective
            (nothing_done p))
  unfolding use_tool run_tool
  use_tool-Ends tool_ms conversation objective p =
      found_tool-Ends
        (retrieve fl platform round6 embedder vector_store settings p.world.session
          conversation.workspace_id objective p.world.vectors)
        tool_ms objective p

  maybe_use_tool-Ends :
      (tool_ms : ℕ) (conversation : Conversation) (objective : Text) (p : Process F S)
      → Ends
          (λ u t. IsTraced p tool_steps t)
          (λ e t. IsTraced p 0 t × IsToolRaised p conversation objective e)
          (maybe_use_tool fl show platform round6 settings embedder vector_store llm tool_ms
            conversation objective
            (nothing_done p))
  maybe_use_tool-Ends tool_ms conversation objective p =
      elim (Bool-cases (ltb 1 settings.agent_max_steps)) [
        | inl many ↦ rw many (use_tool-Ends tool_ms conversation objective p)
        | inr one ↦ rw one (inl (tt, refl, (refl, refl, refl, tt, omega arith)))
      ]

  answer-Ends :
      (system objective : Text) (p : Process F S) (conversation : Conversation) (t : Trace F S)
      → IsTraced p tool_steps t
      → (r : Result LlmResult) → llm.complete (asked system objective) ≡ r
      → Ends
          (λ u t'.
            IsTraced p (tool_steps + 1) t' × IsAnswered objective t'.answer_text t'.total_tokens)
          (λ e t'. IsTraced p tool_steps t' × IsRaised p conversation objective e)
          ((lift r >>= λ completion.
              modify (
                record_answer fl show platform round6 settings embedder vector_store llm
                  completion))
            t)
  unfolding record_answer
  answer-Ends system objective p conversation t traced (ok completion) is = inl (
    tt,
    refl,
    (
      step-IsTraced p tool_steps t
          (record_answer fl show platform round6 settings embedder vector_store llm completion t) _
          traced refl refl refl refl,
      (system, completion, is, refl, refl),
    ),
  )
  answer-Ends system objective p conversation t traced (err e) is =
      inr (e, refl, (traced, inr (system, is)))

  pub attempt_run-Ends :
      (tool_ms : ℕ) (conversation : Conversation) (objective memory_block : Text) (p : Process F S)
      → Ends
          (λ u t. IsTraced p (tool_steps + 1) t × IsAnswered objective t.answer_text t.total_tokens)
          (λ e t. IsTraced p tool_steps t × IsRaised p conversation objective e)
          (attempt_run fl show platform round6 settings embedder vector_store llm tool_ms
            conversation objective memory_block
            (nothing_done p))
  unfolding attempt_run
  attempt_run-Ends tool_ms conversation objective memory_block p =
      then_call
        (λ u t. IsTraced p (tool_steps + 1) t × IsAnswered objective t.answer_text t.total_tokens)
        (λ e t. IsTraced p tool_steps t × IsRaised p conversation objective e) _
        (λ u t. IsTraced p tool_steps t)
        (λ e t. IsTraced p 0 t × IsToolRaised p conversation objective e)
        (maybe_use_tool fl show platform round6 settings embedder vector_store llm tool_ms
          conversation objective)
        (nothing_done p) (maybe_use_tool-Ends tool_ms conversation objective p)
        (λ u t traced.
          answer-Ends (agent_system_prompt memory_block t.context_text) objective p conversation t
            traced _ refl)
        (λ e t failed.
          let ((a, b, c, numbered, few), raised) = failed in
          ((a, b, c, numbered, omega (arith, few)), inl raised))
