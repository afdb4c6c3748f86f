-- ===== src/VectorStore/Backends.antt =====
-- The store that app/ai/vectorstore/factory.py chooses and the contract of the protocol.
use nexus_ai.Base.{
  ℕ, ◌≡◌, ◌≤◌, refl, true, false, List, [], ◌∷◌, map, All, length, length-map, list_beq, nat_eq,
  Result, Result-cases, ok, err, value_error, arith, Bool-cases, ◌⊎◌, inl, inr, some,
}
use nexus_ai.Base.Float.{FloatOps}
use nexus_ai.Base.Text.{Text, codes}
use nexus_ai.Config.{Settings}
use nexus_ai.VectorStore.{SearchResult, VectorStore, IsTenantScoped}
use nexus_ai.VectorStore.Memory.{memory_store}
use nexus_ai.VectorStore.Memory.Laws.{memory_store-IsTenantScoped}
use nexus_ai.VectorStore.Qdrant.{
  ScoredPoint, QdrantClient, Meets, IsFiltered, workspace_filter, result_of, query_workspace,
  qdrant_store,
}
use nexus_ai.VectorStore.Factory.{store_on_first, store_on_second, get_vector_store}

module _ {F S T : Type 0} where
  store_on_first-IsTenantScoped :
      (store : VectorStore F S)
      → IsTenantScoped store
      → IsTenantScoped (store_on_first {T = T} store)
  store_on_first-IsTenantScoped store h = record {
    scoped = λ query workspace limit s s' hits e.
        let r = store.search query workspace limit s.0 in
        h.scoped query workspace limit s.0 r.1 hits (ground arith);
  }

  store_on_second-IsTenantScoped :
      (store : VectorStore F T)
      → IsTenantScoped store
      → IsTenantScoped (store_on_second {S = S} store)
  store_on_second-IsTenantScoped store h = record {
    scoped = λ query workspace limit s s' hits e.
        let r = store.search query workspace limit s.1 in
        h.scoped query workspace limit s.1 r.1 hits (ground arith);
  }

-- What the settings of a backend give: a store that keeps tenants apart, or ValueError.
abbrev pub IsChosen : {F S : Type 0} → Settings F → Result (VectorStore F S) → Type 0
IsChosen settings (ok store) =
    ((list_beq settings.vector_backend (codes "memory") ≡ true)
      ⊎ (list_beq settings.vector_backend (codes "qdrant") ≡ true))
    × IsTenantScoped store
IsChosen settings (err e) =
    (e ≡ value_error)
    × (list_beq settings.vector_backend (codes "memory") ≡ false)
    × (list_beq settings.vector_backend (codes "qdrant") ≡ false)

module _ {F T : Type 0} (client : QdrantClient F T) (filters : IsFiltered client) where
  result_of-scoped :
      (workspace : ℕ) (points : List (ScoredPoint F))
      → All
          (λ point. All (λ condition. Meets condition point.payload) (workspace_filter workspace))
          points
      → All (λ hit. hit.payload.workspace_id ≡ workspace) (map result_of points)
  result_of-scoped workspace [] h = tt
  result_of-scoped workspace (point ∷ points) h =
      let same : some point.payload.workspace_id ≡ some workspace = h.0.0 in
      (ground arith, result_of-scoped workspace points h.1)

  query_workspace-scoped :
      (collection : Text) (query : List F) (workspace limit : ℕ) (s s' : T)
      (hits : List (SearchResult F))
      → query_workspace client collection query workspace limit s ≡ (ok hits, s')
      → All (λ hit. hit.payload.workspace_id ≡ workspace) hits × (length hits ≤ limit)
  unfolding query_workspace
  query_workspace-scoped collection query workspace limit s s' hits e =
      let asked = client.query_points collection query (workspace_filter workspace) limit s in
      elim (Result-cases asked.0) [
        | inr (error, raised) ↦ ground arith
        | inl (points, found) ↦
            let given =
              filters.filtered collection query (workspace_filter workspace) limit s asked.1 points
                (ground arith) in
            let same : map result_of points ≡ hits = ground arith in
            rw (← same) (result_of-scoped workspace points given.0, rw length-map given.1)
      ]

  pub qdrant_store-IsTenantScoped :
      (collection : Text) → IsTenantScoped (qdrant_store client collection)
  unfolding qdrant_store
  qdrant_store-IsTenantScoped collection = record { scoped = query_workspace-scoped collection }

  -- Where `query_points` answers by the filter and the limit it is given, `get_vector_store`
  -- returns a store that meets the tenant contract of the protocol, if the backend of the settings
  -- is "memory" or "qdrant", and raises ValueError for any other.
  pub get_vector_store-IsTenantScoped :
      (fl : FloatOps F) (settings : Settings F)
      → IsChosen settings (get_vector_store fl client settings)
  unfolding get_vector_store
  get_vector_store-IsTenantScoped fl settings =
      elim (Bool-cases (list_beq settings.vector_backend (codes "memory"))) [
        | inl memory ↦ rw memory (
          inl memory,
          store_on_first-IsTenantScoped (memory_store fl) (memory_store-IsTenantScoped fl),
        )
        | inr other ↦ elim (Bool-cases (list_beq settings.vector_backend (codes "qdrant"))) [
          | inl qdrant ↦
              rw (other, qdrant)
                (
                  inr qdrant,
                  store_on_second-IsTenantScoped (qdrant_store client settings.qdrant_collection)
                      (qdrant_store-IsTenantScoped settings.qdrant_collection),
                )
          | inr unknown ↦ rw (other, unknown) (refl, other, unknown)
        ]
      ]
