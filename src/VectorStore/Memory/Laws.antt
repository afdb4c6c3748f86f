-- ===== src/VectorStore/Memory/Laws.antt =====
-- The in-memory store meets the contract of the protocol; what a search shows, and what a deletion
-- takes away and leaves alone.

use nexus_ai.Base.{
  ℕ, ◌≤◌, ◌≡◌, ◌≢◌, refl, false, some, List, [], ◌∷◌, ◌++◌, map, arith, All, All-take,
  All-sorted_desc, length, drop, length-take-le, filter, sorted_desc, sorted_desc-perm, Perm,
  IsOrder, IsSortedDesc, sorted_desc-IsSortedDesc, nat_eq, length-take, length-sorted_desc, min,
  Bool-cases, inl, inr, take-append-drop,
}
use nexus_ai.Base.Dict
use nexus_ai.Base.Float.{FloatOps}
use nexus_ai.VectorStore.{VectorRecord, SearchResult, IsTenantScoped}
use nexus_ai.VectorStore.Memory.{
  Records, in_workspace, is_of, delete_by_document, by_score, scored, search, memory_store,
}

module _ {F : Type 0} (fl : FloatOps F) where
  -- All records of the workspace, scored.
  abbrev pub candidates : List F → ℕ → Records F → List (SearchResult F)
  candidates query workspace records =
      map (scored fl query) (filter (in_workspace workspace) (Dict.values records))

  scored-scoped :
      (query : List F) (workspace : ℕ) (rs : List (VectorRecord F))
      → All
          (λ hit. hit.payload.workspace_id ≡ workspace)
          (map (scored fl query) (filter (in_workspace workspace) rs))
  unfolding scored
  scored-scoped query workspace [] = tt
  scored-scoped query workspace (r ∷ rs) = elim (Bool-cases (in_workspace workspace r)) [
    | inl e ↦ rw e (ground arith, scored-scoped query workspace rs)
    | inr e ↦ rw e (scored-scoped query workspace rs)
  ]

  search-scoped :
      (query : List F) (workspace limit : ℕ) (records : Records F)
      → All (λ hit. hit.payload.workspace_id ≡ workspace) (search fl query workspace limit records)
  unfolding search
  search-scoped query workspace limit records =
      let of_scope = λ (hit : SearchResult F). hit.payload.workspace_id ≡ workspace in
      All-take of_scope limit _ (
        All-sorted_desc (by_score fl) of_scope (candidates query workspace records)
          (scored-scoped query workspace (Dict.values records)))

  -- The in-memory store meets the contract of the protocol.
  pub memory_store-IsTenantScoped : IsTenantScoped (memory_store fl)
  unfolding memory_store
  memory_store-IsTenantScoped = record {
    scoped = λ query workspace limit s s' hits e.
        let same : search fl query workspace limit s ≡ hits = ground arith in
        rw (← same)
          (search-scoped query workspace limit s, length_search-le query workspace limit s);
  }
    where
      length_search-le :
          (query : List F) (workspace limit : ℕ) (s : Records F)
          → length (search fl query workspace limit s) ≤ limit
      length_search-le query workspace limit s = unfold search in length-take-le limit _

  -- Where `<=` is a total order: a search shows the nearest records of its workspace, nearest
  -- first: with what it leaves out it is a reordering of all of them that is sorted by score, and
  -- it leaves none out below its limit.
  pub search-nearest :
      (order : IsOrder fl.leq) (query : List F) (workspace limit : ℕ) (records : Records F)
      → (rest : List (SearchResult F)) × Perm
          (search fl query workspace limit records ++ rest)
          (candidates query workspace records)
        × IsSortedDesc (by_score fl) (search fl query workspace limit records ++ rest)
        × (length (search fl query workspace limit records)
            ≡ min limit (length (candidates query workspace records)))
  unfolding search
  search-nearest order query workspace limit records =
      let found = candidates query workspace records in
      let ranked = sorted_desc (by_score fl) found in
      let score_order : IsOrder (by_score fl) = record {
        total = λ a b. order.total a.score b.score;
        trans = λ a b c. order.trans a.score b.score c.score;
      } in
      (
        drop limit ranked,
        rw take-append-drop (sorted_desc-perm (by_score fl) found),
        rw take-append-drop (sorted_desc-IsSortedDesc (by_score fl) score_order found),
        rw (length-take, length-sorted_desc),
      )

not_of :
    {F : Type 0} (workspace document : ℕ) (d : Records F)
    → All
        (λ r. is_of workspace document r ≡ false)
        (Dict.values (delete_by_document workspace document d))
unfolding delete_by_document
not_of workspace document [] = tt
not_of workspace document ((k, r) ∷ d) = ground (arith, not_of workspace document d)

kept :
    {F : Type 0} (workspace document key : ℕ) (d : Records F) (r : VectorRecord F)
    → Dict.lookup key d ≡ some r
    → is_of workspace document r ≡ false
    → Dict.lookup key (delete_by_document workspace document d) ≡ some r
unfolding delete_by_document Dict.lookup
kept workspace document key [] r e h = ground arith
kept workspace document key ((k, x) ∷ d) r e h = ground (arith, kept workspace document key d r)

-- A deletion leaves no record of the document in the workspace, and every other record.
pub delete_by_document-exact :
    {F : Type 0} (workspace document : ℕ) (d : Records F)
    → All
        (λ r. is_of workspace document r ≡ false)
        (Dict.values (delete_by_document workspace document d))
      × ((key : ℕ) (r : VectorRecord F)
          → Dict.lookup key d ≡ some r
          → is_of workspace document r ≡ false
          → Dict.lookup key (delete_by_document workspace document d) ≡ some r)
delete_by_document-exact workspace document d =
    (not_of workspace document d, λ key r. kept workspace document key d r)

filter-delete_by_document :
    {F : Type 0} (workspace other document : ℕ) (d : Records F)
    → workspace ≢ other
    → filter (in_workspace other) (Dict.values (delete_by_document workspace document d))
      ≡ filter (in_workspace other) (Dict.values d)
unfolding delete_by_document
filter-delete_by_document workspace other document [] ne = refl
filter-delete_by_document workspace other document ((k, r) ∷ d) ne =
    ground (arith, filter-delete_by_document workspace other document d ne)

-- A deletion in one workspace changes no search in another.
pub search-delete_by_document_other :
    {F : Type 0} (fl : FloatOps F) (query : List F) (workspace other document limit : ℕ)
    (d : Records F)
    → workspace ≢ other
    → search fl query other limit (delete_by_document workspace document d)
      ≡ search fl query other limit d
unfolding search
search-delete_by_document_other fl query workspace other document limit d ne =
    rw (filter-delete_by_document workspace other document d ne)
