-- ===== src/Retrieval.antt =====
-- app/services/retrieval.py: dense and keyword recall, fused, reranked and packed into a budget.
pub mod Ranking
pub mod Fusion
pub mod Scores
pub mod Assembly
pub mod Whole
pub mod Sources
pub mod Isolation
use nexus_ai.Base.{
  ℕ, ◌+◌, ◌*◌, Bool, true, false, ◌&&◌, ◌||◌, not, Option, none, some, List, [], ◌∷◌, ◌++◌, map,
  if◌then◌else◌, filter, any, count, take, length, is_some, nat_beq, ltb, Exec, Result, ok, err,
  value_error, lift, pure, ◌>>=◌, ◌>>◌, sorted_desc, list_beq, nat_eq,
}
use nexus_ai.Base.Dict
use nexus_ai.Base.Dict.{Dict}
use nexus_ai.Base.Float.{FloatOps}
use nexus_ai.Base.Text.{Text, codes, words, decimal, join}
use nexus_ai.Config.{Settings}
use nexus_ai.Database.{Db, Chunk, Document, Citation}
use nexus_ai.Providers.{EmbeddingProvider, Platform}
use nexus_ai.VectorStore.{VectorStore, SearchResult}

pub record RetrievedChunk (F : Type 0) : Type 0 where
  pub chunk_id : ℕ
  pub document_id : ℕ
  pub text : Text
  pub ordinal : Option ℕ
  pub page : Option ℕ
  pub section : Option Text
  pub score : F

pub record RetrievalResult (F : Type 0) : Type 0 where
  pub context : Text
  pub citations : List (Citation F)

abbrev pub rrf_k : ℕ
rrf_k = 60

abbrev pub is_in : List Text → Text → Bool
is_in ts t = any (λ u. list_beq u t) ts

-- `set(tokens)`, as a list without repetition
unfoldable pub set_of : List Text → List Text
set_of [] = []
set_of (t ∷ ts) = let rest = set_of ts in if is_in ts t then rest else t ∷ rest

-- The condition of the query: the chunk's document is in the workspace and not deleted.
unfoldable pub is_visible : {F : Type 0} → Db F → ℕ → Chunk → Bool
is_visible db workspace chunk =
    any
      (λ d.
        nat_beq d.id chunk.document_id
        && nat_beq d.workspace_id workspace
        && not (is_some d.deleted_at))
      db.documents

module _ (platform : Platform) where
  unfoldable pub tokens : Text → List Text
  unfolding words
  tokens text = words (platform.lower text)

  -- `len(terms & set(_tokens(text)))`, for a set of terms
  unfoldable pub overlap : List Text → Text → ℕ
  unfolding tokens
  overlap terms text = count (is_in (tokens text)) terms

  unfoldable pub keyword_rows : {F : Type 0} → Db F → ℕ → List Text → ℕ → List Chunk
  unfolding is_visible
  keyword_rows db workspace terms most = take most (
      filter (λ c. is_visible db workspace c && any (λ t. platform.ilike c.text t) terms) db.chunks)

abbrev pub by_score : {F : Type 0} → FloatOps F → RetrievedChunk F → RetrievedChunk F → Bool
by_score fl a b = fl.leq a.score b.score

module _ {F : Type 0} (fl : FloatOps F) (platform : Platform) where
  unfoldable pub of_row : List Text → Chunk → RetrievedChunk F
  unfolding overlap
  of_row terms c = record {
    chunk_id = c.id;
    document_id = c.document_id;
    text = c.text;
    ordinal = some c.ordinal;
    page = c.page;
    section = c.section;
    score = fl.of_nat (overlap platform terms c.text);
  }

  -- Without terms no chunk matches, as `if not terms: return []` wants.
  unfoldable pub keyword : Db F → ℕ → Text → ℕ → List (RetrievedChunk F)
  unfolding of_row keyword_rows set_of tokens
  keyword db workspace query limit =
      let terms = set_of (tokens platform query) in
      take limit (
        sorted_desc (by_score fl) (
          map (of_row terms) (
            filter (λ c. ltb 0 (overlap platform terms c.text))
              (keyword_rows platform db workspace terms (limit * 4)))))

  unfoldable pub of_hit : SearchResult F → RetrievedChunk F
  of_hit hit = record {
    chunk_id = hit.payload.chunk_id;
    document_id = hit.payload.document_id;
    text = hit.payload.text;
    ordinal = some hit.payload.ordinal;
    page = hit.payload.page;
    section = hit.payload.section;
    score = hit.score;
  }

  -- `(vector,) = …`
  abbrev pub the_only : List (List F) → Result (List F)
  the_only (v ∷ []) = ok v
  the_only _ = err value_error

  unfoldable pub dense :
      {S : Type 0}
      → EmbeddingProvider F
      → VectorStore F S
      → ℕ
      → Text
      → ℕ
      → Exec S (List (RetrievedChunk F))
  unfolding of_hit
  dense embedder store workspace query limit = do
    vectors ← lift (embedder.embed (query ∷ []))
    vector ← lift (the_only vectors)
    store.ensure_ready embedder.dimension
    hits ← store.search vector workspace limit
    pure (map of_hit hits)
