-- ===== src/Tests/Caches.antt =====
-- A cache and a memory of two entries for each workspace, over whole numbers.
use nexus_ai.Base.{
  all_under, ℕ, ◌≤◌, ◌≡◌, some, List, [], ◌∷◌, ◌++◌, map, length, last_of, min, refl, Perm,
  IsSortedDesc, push_bounded, nat_eq,
}
use nexus_ai.Base.Dict
use nexus_ai.Base.Float.{whole, whole-IsOrder}
use nexus_ai.Base.Text.{codes}
use nexus_ai.Similarity.{cosine}
use nexus_ai.SemanticCache
use nexus_ai.SemanticCache.{SemanticCache}
use nexus_ai.SemanticCache.Best.{IsBest, lookup-IsBest}
use nexus_ai.SemanticCache.Eviction
use nexus_ai.SemanticCache.Eviction.{entries_of-store_all}
use nexus_ai.AgentMemory
use nexus_ai.AgentMemory.{AgentMemory}
use nexus_ai.AgentMemory.History
use nexus_ai.AgentMemory.Recall.{recall-nearest}

abbrev answers : Eviction.History ℕ ℕ
answers =
    (1, record { vector = 3 ∷ 4 ∷ []; value = 10 })
    ∷ (2, record { vector = 1 ∷ 0 ∷ []; value = 20 })
    ∷ (1, record { vector = 0 ∷ 5 ∷ []; value = 30 })
    ∷ (1, record { vector = 5 ∷ 0 ∷ []; value = 40 })
    ∷ []

abbrev cache : SemanticCache ℕ ℕ
cache = Eviction.store_all (SemanticCache.fresh 2) answers

lookup-hit : SemanticCache.lookup whole cache 1 (0 ∷ 1 ∷ []) 1 ≡ some 30
unfolding SemanticCache.lookup Eviction.store_all SemanticCache.entries_of Dict.lookup
    SemanticCache.store Dict.insert push_bounded cosine
lookup-hit = refl

lookup-IsBest_example :
    IsBest whole whole-IsOrder (0 ∷ 1 ∷ []) (SemanticCache.entries_of cache 1) 1 30
lookup-IsBest_example = (lookup-IsBest whole whole-IsOrder (0 ∷ 1 ∷ []) cache 1 1).0 30 lookup-hit

entries_of-store_all_example :
    (SemanticCache.entries_of cache 1 ≡ last_of 2 (all_under 1 answers))
    × (length (SemanticCache.entries_of cache 1) ≤ 2)
entries_of-store_all_example = entries_of-store_all 2 answers 1

abbrev summaries : History.History ℕ
summaries =
    (1, record { vector = 1 ∷ 0 ∷ []; summary = codes "first" })
    ∷ (1, record { vector = 0 ∷ 2 ∷ []; summary = codes "second" })
    ∷ (1, record { vector = 3 ∷ 0 ∷ []; summary = codes "third" })
    ∷ []

abbrev memory : AgentMemory ℕ
memory = History.remember_all (AgentMemory.fresh 2) summaries

recall-nearest_example :
    (shown : List (AgentMemory.Entry ℕ)) × (rest : List (AgentMemory.Entry ℕ)) × (AgentMemory.recall
        whole memory 1
        (2 ∷ 0 ∷ [])
        1
      ≡ map (λ e. e.summary) shown)
    × Perm (shown ++ rest) (AgentMemory.entries_of memory 1)
    × IsSortedDesc (AgentMemory.by_similarity whole (2 ∷ 0 ∷ [])) (shown ++ rest)
    × (length shown ≡ min 1 (length (AgentMemory.entries_of memory 1)))
recall-nearest_example = recall-nearest whole whole-IsOrder memory 1 (2 ∷ 0 ∷ []) 1
