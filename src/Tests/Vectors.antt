-- ===== src/Tests/Vectors.antt =====
-- The in-memory store with two records of workspace 1 and one of workspace 2.
use nexus_ai.Base.{ℕ, ◌≡◌, none, List, [], ◌∷◌, ◌++◌, length, min, Perm, IsSortedDesc, nat_eq}
use nexus_ai.Base.Float.{whole, whole-IsOrder}
use nexus_ai.Base.Text.{codes}
use nexus_ai.VectorStore.{VectorRecord, SearchResult}
use nexus_ai.VectorStore.Memory.{Records, upsert, search, by_score}
use nexus_ai.VectorStore.Memory.Laws.{candidates, search-nearest}

abbrev pub vector_of : ℕ → ℕ → ℕ → ℕ → VectorRecord ℕ
vector_of id workspace document x = record {
  id = id;
  vector = x ∷ 1 ∷ [];
  payload = record {
    workspace_id = workspace;
    document_id = document;
    chunk_id = id;
    ordinal = 0;
    page = none;
    section = none;
    text = codes "passage";
  };
}

abbrev held : Records ℕ
held = upsert (vector_of 1 1 7 5 ∷ vector_of 2 1 8 2 ∷ vector_of 3 2 7 9 ∷ []) []

search-nearest_example :
    (rest : List (SearchResult ℕ)) × Perm
      (search whole (1 ∷ 1 ∷ []) 1 1 held ++ rest)
      (candidates whole (1 ∷ 1 ∷ []) 1 held)
    × IsSortedDesc (by_score whole) (search whole (1 ∷ 1 ∷ []) 1 1 held ++ rest)
    × (length (search whole (1 ∷ 1 ∷ []) 1 1 held)
        ≡ min 1 (length (candidates whole (1 ∷ 1 ∷ []) 1 held)))
search-nearest_example = search-nearest whole whole-IsOrder (1 ∷ 1 ∷ []) 1 1 held
