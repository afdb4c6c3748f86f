-- ===== src/Tests/Passages.antt =====
-- A workspace 1 with one document of two chunks, one of them in the vector store too, and a
-- workspace 2 with a document of its own.
use nexus_ai.Base.{
  ℕ, ◌+◌, ◌-◌, ◌≤◌, ◌<◌, ◌≡◌, ◌≢◌, refl, none, some, List, [], ◌∷◌, ◌++◌, map, All, any, count,
  take, length, min, get_elem?, list_beq, Perm, IsSortedDesc, ok, nat_eq, sorted_desc,
}
use nexus_ai.Base.Dict
use nexus_ai.Base.Float.{whole, whole-IsOrder}
use nexus_ai.Base.Text.{Text, codes, join}
use nexus_ai.Config.{Settings, defaults}
use nexus_ai.Database.{Db, no_rows, Citation, indexed}
use nexus_ai.Providers.{Platform, EmbeddingProvider}
use nexus_ai.VectorStore.Memory.{Records, memory_store, scored}
use nexus_ai.VectorStore.Memory.Laws.{memory_store-IsTenantScoped}
use nexus_ai.Retrieval.{RetrievedChunk, RetrievalResult, by_score, dense, keyword}
use nexus_ai.Retrieval.Ranking.{fuse, rerank, add_lists, term_of, rescored}
use nexus_ai.Retrieval.Fusion.{has_id, one_if, occurs, fuse-merges}
use nexus_ai.Retrieval.Scores.{sum_lists, fuse-scores, ranks_below, rerank-best}
use nexus_ai.Retrieval.Assembly.{
  assemble, numbered, citation_of, total_cost, cost_of, assemble-packs,
}
use nexus_ai.Retrieval.Whole.{retrieve, pack}
use nexus_ai.Retrieval.Isolation.{CitationFrom, retrieve-isolated}

-- Lower case is the text itself, and a search for a term finds it as a whole text.
abbrev pub plain : Platform
plain = record {
  lower = λ s. s;
  ilike = λ s t. list_beq s t;
  headings = λ s. [];
  sha256_hex = λ s. s;
}

abbrev passage : ℕ → Text → RetrievedChunk ℕ
passage id text = record {
  chunk_id = id;
  document_id = 7;
  text = text;
  ordinal = some 0;
  page = none;
  section = none;
  score = id;
}

abbrev lists : List (List (RetrievedChunk ℕ))
lists =
    (passage 1 (codes "red") ∷ passage 2 (codes "blue sky") ∷ [])
    ∷ (passage 2 (codes "blue sky") ∷ passage 3 (codes "sky") ∷ [])
    ∷ []

abbrev candidates : List (RetrievedChunk ℕ)
candidates = passage 1 (codes "red") ∷ passage 2 (codes "blue sky") ∷ passage 3 (codes "sky") ∷ []

fuse-merges_example :
    ((id : ℕ)
      → count (has_id whole id) (fuse whole lists) ≡ one_if whole (any (occurs whole id) lists))
    × IsSortedDesc (by_score whole) (fuse whole lists)
fuse-merges_example = fuse-merges whole whole-IsOrder lists

fuse-scores_example :
    All (λ c. c.score ≡ sum_lists whole c.chunk_id lists whole.zero_float) (fuse whole lists)
fuse-scores_example = fuse-scores whole lists

rerank-best_example :
    (rest : List (RetrievedChunk ℕ)) × Perm
      (rerank whole plain (codes "sky") candidates 2 ++ rest)
      candidates
    × IsSortedDesc
        (ranks_below whole plain (codes "sky"))
        (rerank whole plain (codes "sky") candidates 2 ++ rest)
    × (length (rerank whole plain (codes "sky") candidates 2) ≡ min 2 (length candidates))
rerank-best_example = rerank-best whole whole-IsOrder plain (codes "sky") candidates 2

assemble-packs_example :
    (n : ℕ) × (n ≤ length candidates)
    × ((assemble plain (λ x. x) 2 candidates).context
        ≡ join (10 ∷ []) (numbered plain (λ x. x) 2 1 (take n candidates)))
    × ((assemble plain (λ x. x) 2 candidates).citations
        ≡ map (citation_of plain (λ x. x) 2) (take n candidates))
    × (candidates ≢ [] → 1 ≤ n)
    × (2 ≤ n → total_cost plain (λ x. x) 2 (take n candidates) ≤ 2)
    × ((c : RetrievedChunk ℕ)
        → get_elem? candidates n ≡ some c
        → 2 < total_cost plain (λ x. x) 2 (take n candidates) + cost_of plain (λ x. x) 2 c)
assemble-packs_example = assemble-packs plain (λ x. x) 2 candidates

abbrev embedder : EmbeddingProvider ℕ
embedder = record { model = codes "unit"; dimension = 1; embed = λ texts. ok ((1 ∷ []) ∷ []) }

abbrev library : Db ℕ
library = record (no_rows {F = ℕ}) {
  documents =
      record {
        id = 7;
        workspace_id = 1;
        filename = codes "a.txt";
        mime_type = codes "text/plain";
        size_bytes = 3;
        checksum = codes "c";
        status = indexed;
        error = none;
        chunk_count = 1;
        deleted_at = none;
      }
      ∷ [];
  chunks =
      record {
        id = 2;
        document_id = 7;
        ordinal = 1;
        text = codes "sky";
        token_count = 1;
        page = none;
        section = none;
      }
      ∷ [];
}

abbrev vectors : Records ℕ
vectors =
    (
      1,
      record {
        id = 1;
        vector = 1 ∷ [];
        payload = record {
          workspace_id = 1;
          document_id = 7;
          chunk_id = 1;
          ordinal = 0;
          page = none;
          section = none;
          text = codes "red sky";
        };
      },
    )
    ∷ []

abbrev cited : ℕ → Text → Citation ℕ
cited id text = record {
  chunk_id = id;
  document_id = 7;
  ordinal = some (id - 1);
  page = none;
  section = none;
  score = 0;
  text = text;
}

abbrev pub answer : RetrievalResult ℕ
answer = record {
  context = codes "[1] red sky" ++ 10 ∷ codes "[2] sky";
  citations = cited 1 (codes "red sky") ∷ cited 2 (codes "sky") ∷ [];
}

abbrev config : Settings ℕ
config = defaults 0 0 1 15

retrieve-sky :
    retrieve whole plain
      (λ x. x)
      embedder
      (memory_store whole)
      config
      library
      1
      (codes "sky")
      vectors
    ≡ (ok answer, vectors)
unfolding retrieve dense memory_store pack assemble rerank sorted_desc fuse add_lists keyword
    Dict.lookup scored term_of rescored cost_of
retrieve-sky = refl

retrieve-isolated_example :
    All
      (CitationFrom
        (memory_store whole)
        ((memory_store whole).ensure_ready embedder.dimension vectors).1
        library
        1)
      answer.citations
retrieve-isolated_example =
    retrieve-isolated whole plain (λ x. x) (memory_store whole) embedder config library 1
      (codes "sky") vectors vectors answer (memory_store-IsTenantScoped whole) retrieve-sky
