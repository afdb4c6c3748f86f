-- ===== src/SemanticCache.antt =====
-- app/services/semantic_cache.py: answers by query vector, for each workspace. The cache itself is
-- for values of any type `V`, which `CachedAnswer` is for the chat.
pub mod Best
pub mod Eviction
use nexus_ai.Base.{ℕ, Bool, Option, none, some, List, [], ◌∷◌, if◌then◌else◌, push_bounded, nat_eq}
use nexus_ai.Base.Dict
use nexus_ai.Base.Dict.{Dict}
use nexus_ai.Base.Float.{FloatOps}
use nexus_ai.Base.Text.{Text}
use nexus_ai.Database.{Citation}
use nexus_ai.Similarity.{cosine}

pub record CachedAnswer (F : Type 0) : Type 0 where
  pub answer : Text
  pub citations : List (Citation F)

-- `_Entry`
pub record Entry (F V : Type 0) : Type 0 where
  pub vector : List F
  pub value : V

pub record SemanticCache (F V : Type 0) : Type 0 where
  pub max_entries : ℕ
  pub by_workspace : Dict ℕ (List (Entry F V))

-- `self._by_workspace.get(workspace_id)`, where a missing workspace has no entries
unfoldable pub entries_of : {F V : Type 0} → SemanticCache F V → ℕ → List (Entry F V)
entries_of cache workspace = Dict.get_or workspace cache.by_workspace []

module _ {F V : Type 0} (fl : FloatOps F) where
  -- The loop of `lookup`, with `best_score` and `best`.
  unfoldable pub best_from : List F → F → Option V → List (Entry F V) → Option V
  best_from query best_score best [] = best
  best_from query best_score best (entry ∷ rest) =
      let score = cosine fl query entry.vector in
      let better = fl.leq best_score score in
      best_from query (if better then score else best_score)
        (if better then some entry.value else best) rest

  unfoldable pub lookup : SemanticCache F V → ℕ → List F → F → Option V
  unfolding best_from
  lookup cache workspace query threshold =
      best_from query threshold none (entries_of cache workspace)

unfoldable pub store : {F V : Type 0} → SemanticCache F V → ℕ → List F → V → SemanticCache F V
unfolding entries_of
store cache workspace query answer = record cache {
  by_workspace =
      Dict.insert workspace
        (push_bounded cache.max_entries (record { vector = query; value = answer })
          (entries_of cache workspace))
        cache.by_workspace;
}

unfoldable pub clear : {F V : Type 0} → SemanticCache F V → SemanticCache F V
clear cache = record cache { by_workspace = [] }

-- `get_semantic_cache`
abbrev pub fresh : {F V : Type 0} → ℕ → SemanticCache F V
fresh most = record { max_entries = most; by_workspace = [] }
