-- ===== src/AgentMemory/Recall.antt =====
-- What a recall shows: the summaries of the workspace that are nearest to the query.
use nexus_ai.Base.{
  ℕ, ◌≡◌, List, ◌++◌, map, take, drop, length, min, take-append-drop, length-take,
  length-sorted_desc, sorted_desc, sorted_desc-perm, sorted_desc-IsSortedDesc, IsOrder,
  IsSortedDesc, Perm, refl,
}
use nexus_ai.Base.Float.{FloatOps}
use nexus_ai.Similarity.{cosine}
use nexus_ai.AgentMemory.{AgentMemory, Entry, entries_of, recall, by_similarity}

module _ {F : Type 0} (fl : FloatOps F) where
  -- Where `<=` is a total order: a recall gives the summaries of the entries of its workspace that
  -- are nearest to the query, nearest first: `shown` and `rest` together are a reordering of all
  -- entries, sorted by similarity, and there are `top_k` summaries unless there are fewer entries.
  pub recall-nearest :
      (order : IsOrder fl.leq) (memory : AgentMemory F) (workspace : ℕ) (query : List F) (top_k : ℕ)
      → (shown : List (Entry F)) × (rest : List (Entry F)) × (recall fl memory workspace query top_k
          ≡ map (λ e. e.summary) shown)
        × Perm (shown ++ rest) (entries_of memory workspace)
        × IsSortedDesc (by_similarity fl query) (shown ++ rest)
        × (length shown ≡ min top_k (length (entries_of memory workspace)))
  unfolding recall
  recall-nearest order memory workspace query top_k =
      let leq = by_similarity fl query in
      let held = entries_of memory workspace in
      let similarity_order : IsOrder leq = record {
        total = λ a b. order.total (cosine fl query a.vector) (cosine fl query b.vector);
        trans = λ a b c.
            order.trans (cosine fl query a.vector) (cosine fl query b.vector)
              (cosine fl query c.vector);
      } in
      (
        take top_k (sorted_desc leq held),
        drop top_k (sorted_desc leq held),
        refl,
        rw take-append-drop (sorted_desc-perm leq held),
        rw take-append-drop (sorted_desc-IsSortedDesc leq similarity_order held),
        rw (length-take, length-sorted_desc),
      )
