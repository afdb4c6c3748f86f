-- ===== src/Process.antt =====
-- The state of a serving process: the world of a request's session (app/db/session.py), the answer
-- cache, the agent's memory and the metrics, with the token counters of app/core/observability.py.
pub mod Calls
use nexus_ai.Base.{ℕ, [], Exec, ◌+◌, List, ◌∷◌, ◌++◌, nat_eq}
use nexus_ai.Base.Float.{FloatOps}
use nexus_ai.Base.Text.{Text}
use nexus_ai.Config.{Settings}
use nexus_ai.Database.{Db, Message}
use nexus_ai.SemanticCache.{SemanticCache, CachedAnswer}
use nexus_ai.AgentMemory.{AgentMemory}
use nexus_ai.Metrics.{MetricsRegistry, add_amount}
use nexus_ai.Ingestion.{World, commit, rollback}

pub record Process (F S : Type 0) : Type 0 where
  pub world : World F S
  pub cache : SemanticCache F (CachedAnswer F)
  pub memory : AgentMemory F
  pub metrics : MetricsRegistry F

module _ {F S : Type 0} where
  abbrev pub on_world : {A : Type 0} → Exec (World F S) A → Exec (Process F S) A
  on_world m p = let (r, w) = m p.world in (r, record p { world = w })

  -- `get_db`: the session of a request ends with a rollback, or is closed, which drops what is not
  -- committed too.
  unfoldable pub in_request : {A : Type 0} → Exec (Process F S) A → Exec (Process F S) A
  unfolding rollback
  in_request m p = let (r, p') = m p in (r, record p' { world = rollback p'.world })

  -- `db.commit()`
  unfoldable pub commit_session : Process F S → Process F S
  unfolding commit
  commit_session p = record p { world = commit p.world }

  -- `db.add(Message(…))`
  unfoldable pub add_message : Message F → Process F S → Process F S
  add_message m p =
      let db = p.world.session in
      record p {
        world = record p.world { session = record db { messages = db.messages ++ m ∷ [] } };
      }

module _ {F : Type 0} (fl : FloatOps F) (show : F → Text) where
  -- `tokens / 1000 * settings.llm_cost_per_1k_tokens`
  abbrev pub cost_of_tokens : Settings F → ℕ → F
  cost_of_tokens settings tokens =
      fl.mul (fl.div (fl.of_nat tokens) (fl.of_nat 1000)) settings.llm_cost_per_1k_tokens

  unfoldable pub record_llm_usage : ℕ → F → MetricsRegistry F → MetricsRegistry F
  unfolding add_amount
  record_llm_usage tokens cost_usd r = record r {
    llm_tokens = add_amount fl show (fl.of_nat tokens) [] r.llm_tokens;
    llm_cost_usd = add_amount fl show cost_usd [] r.llm_cost_usd;
  }

  abbrev pub count_usage : {S : Type 0} → Settings F → ℕ → Process F S → Process F S
  count_usage settings tokens p = record p {
    metrics = record_llm_usage tokens (cost_of_tokens settings tokens) p.metrics;
  }
