-- ===== src/Agent/Audit.antt =====
-- The runs of a conversation, as they are read back.
use mathlib.Core.List.{reverse-append, append-nil}
use nexus_ai.Base.{
  ok_same, ℕ, Bool, ◌≡◌, refl, ap, sym, ◌∙◌, true, none, some, List, [], ◌∷◌, ◌++◌, reverse, filter,
  find?, nat_beq, if◌then◌else◌, ◌⊎◌, inl, inr, Result, ok, arith, Bool-cases, subst,
}
use nexus_ai.Base.Float.{FloatOps}
use nexus_ai.Base.Text.{Text}
use nexus_ai.Config.{Settings}
use nexus_ai.Database.{Db, Conversation, AgentRun}
use nexus_ai.Providers.{EmbeddingProvider, LlmProvider, Platform}
use nexus_ai.VectorStore.{VectorStore}
use nexus_ai.Process.{Process}
use nexus_ai.Agent.{run_agent, list_runs, get_run}
use nexus_ai.Agent.Runs.{IsFinished, IsCompleted, IsFailed, run_agent-finishes}

filter-append_one :
    {A : Type 0} (p : A → Bool) (xs : List A) (x : A)
    → filter p (xs ++ x ∷ []) ≡ filter p xs ++ (if p x then x ∷ [] else [])
filter-append_one p [] x = refl
filter-append_one p (y ∷ ys) x = ground (arith, filter-append_one p ys x)

find?-append_one :
    {A : Type 0} (p : A → Bool) (xs : List A) (x : A)
    → find? p xs ≡ none
    → find? p (xs ++ x ∷ []) ≡ (if p x then some x else none)
find?-append_one p [] x h = refl
find?-append_one p (y ∷ ys) x h = ground (arith, find?-append_one p ys x)

module _ {F : Type 0} where
  list_runs-append :
      (db db' : Db F) (run : AgentRun F) (conversation : ℕ)
      → db'.agent_runs ≡ db.agent_runs ++ run ∷ []
      → list_runs db' conversation ≡ (
          if nat_beq run.conversation_id conversation
          then run ∷ list_runs db conversation
          else list_runs db conversation)
  unfolding list_runs
  list_runs-append db db' run conversation grown =
      let mine : AgentRun F → Bool = λ r. nat_beq r.conversation_id conversation in
      elim (Bool-cases (mine run)) [
        | inl same ↦
            rw (grown, filter-append_one mine db.agent_runs run, same)
              (reverse-append (filter mine db.agent_runs) (run ∷ []))
        | inr other ↦
            rw (grown, filter-append_one mine db.agent_runs run, other)
              (ap reverse (append-nil (filter mine db.agent_runs)))
      ]

  get_run-append :
      (db db' : Db F) (run : AgentRun F) (conversation : ℕ)
      → db'.agent_runs ≡ db.agent_runs ++ run ∷ []
      → find? (λ r. nat_beq r.id run.id) db.agent_runs ≡ none
      → get_run db' conversation run.id
        ≡ (if nat_beq run.conversation_id conversation then some run else none)
  unfolding get_run
  get_run-append db db' run conversation grown fresh =
      let self : nat_beq run.id run.id ≡ true = ground arith in
      let wanted : AgentRun F → Bool = λ r. nat_beq r.id run.id in
      let found : find? wanted db'.agent_runs ≡ some run =
        rw (grown, find?-append_one wanted db.agent_runs run fresh, self) refl in
      ground (arith, found)

module _ {F S : Type 0} (fl : FloatOps F) (show : F → Text) (platform : Platform) (round6 : F → F)
    (settings : Settings F) (embedder : EmbeddingProvider F) (vector_store : VectorStore F S)
    (llm : LlmProvider) (turn_id answer_id run_id tool_ms run_ms : ℕ) (conversation : Conversation)
    (objective : Text) (p : Process F S) where
  -- In the asked conversation, if it is the run's, the run is the newest and is found by its id; in
  -- another one nothing is new.
  abbrev pub IsListed : AgentRun F → Db F → ℕ → Type 0
  IsListed run db asked =
      (list_runs db asked ≡ (
        if nat_beq conversation.id asked
        then run ∷ list_runs p.world.session asked
        else list_runs p.world.session asked))
      × (get_run db asked run_id ≡ (if nat_beq conversation.id asked then some run else none))

  added :
      (run : AgentRun F) (p' : Process F S)
      → IsCompleted fl show platform round6 settings embedder vector_store llm turn_id answer_id
          run_id tool_ms run_ms conversation objective p run p'
        ⊎ IsFailed fl show platform round6 settings embedder vector_store llm turn_id answer_id
            run_id tool_ms run_ms conversation objective p run p'
      → p'.world.session.agent_runs ≡ p.world.session.agent_runs ++ run ∷ []
  added run p' (inl (a, b, c, (m, d, e, f, answered, rows))) = ap (λ db. db.agent_runs) rows
  added run p' (inr (a, b, c, d, rows)) = ap (λ db. db.agent_runs) rows

  IsFinished-IsListed :
      (r : Result (AgentRun F)) (p' : Process F S) (run : AgentRun F) (asked : ℕ)
      → find? (λ x. nat_beq x.id run_id) p.world.session.agent_runs ≡ none
      → r ≡ ok run
      → IsFinished fl show platform round6 settings embedder vector_store llm turn_id answer_id
          run_id tool_ms run_ms conversation objective p r p'
      → IsListed run p'.world.committed asked
  IsFinished-IsListed r p' run asked fresh is (run', is', id, of, kept, files, n, a, b, end) =
      let same : run' ≡ run = ok_same (sym is' ∙ is) in
      let grown : p'.world.committed.agent_runs ≡ p.world.session.agent_runs ++ run' ∷ [] =
        ap (λ db. db.agent_runs) kept ∙ added run' p' end in
      rw (← same, ← of, ← id)
        (
          list_runs-append p.world.session p'.world.committed run' asked grown,
          get_run-append p.world.session p'.world.committed run' asked grown (rw id fresh),
        )

  -- Where `run_id` is the id of no stored run: a run that is returned is committed as the newest
  -- one of its conversation, `get_run` finds it by its id in that conversation and in no other,
  -- and the runs of the other conversations are what they were.
  pub run_agent-IsListed :
      (run : AgentRun F) (p' : Process F S) (asked : ℕ)
      → find? (λ x. nat_beq x.id run_id) p.world.session.agent_runs ≡ none
      → run_agent fl show platform round6 settings embedder vector_store llm turn_id answer_id
          run_id tool_ms run_ms conversation objective p
        ≡ (ok run, p')
      → IsListed run p'.world.committed asked
  run_agent-IsListed run p' asked fresh call =
      let x =
        run_agent fl show platform round6 settings embedder vector_store llm turn_id answer_id
          run_id tool_ms run_ms conversation objective p in
      elim (run_agent-finishes fl show platform round6 settings embedder vector_store llm turn_id
        answer_id run_id tool_ms run_ms conversation objective p) [
          | inl finished ↦
              subst (λ (q : Process F S). IsListed run q.world.committed asked) (ap (λ y. y.1) call)
                (IsFinished-IsListed x.0 x.1 run asked fresh (ap (λ y. y.0) call) finished)
          | inr (e, bad, raised, same) ↦ absurd (ground arith)
        ]
