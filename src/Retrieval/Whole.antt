-- ===== src/Retrieval/Whole.antt =====
-- app/services/retrieval.py, `retrieve`: the whole pipeline over a database and a vector store.
use nexus_ai.Base.{ℕ, List, [], ◌∷◌, Exec, pure, ◌>>=◌}
use nexus_ai.Base.Float.{FloatOps}
use nexus_ai.Base.Text.{Text}
use nexus_ai.Config.{Settings}
use nexus_ai.Database.{Db}
use nexus_ai.Providers.{EmbeddingProvider, Platform}
use nexus_ai.VectorStore.{VectorStore}
use nexus_ai.Retrieval.{RetrievedChunk, RetrievalResult, dense, keyword}
use nexus_ai.Retrieval.Ranking.{fuse, rerank}
use nexus_ai.Retrieval.Assembly.{assemble}

module _ {F : Type 0} (fl : FloatOps F) (platform : Platform) (round6 : F → F) where
  unfoldable pub pack :
      Settings F → Text → List (RetrievedChunk F) → List (RetrievedChunk F) → RetrievalResult F
  pack settings query by_vector by_word =
      assemble platform round6 settings.context_token_budget
        (rerank fl platform query (fuse fl (by_vector ∷ by_word ∷ [])) settings.rerank_top_k)

  unfoldable pub retrieve :
      {S : Type 0}
      → EmbeddingProvider F
      → VectorStore F S
      → Settings F
      → Db F
      → ℕ
      → Text
      → Exec S (RetrievalResult F)
  retrieve embedder store settings db workspace query = do
    by_vector ← dense fl platform embedder store workspace query settings.retrieval_top_k
    pure (
        pack settings query by_vector
          (keyword fl platform db workspace query settings.retrieval_top_k))
