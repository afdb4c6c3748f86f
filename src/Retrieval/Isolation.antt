-- ===== src/Retrieval/Isolation.antt =====
-- Where the citations of `retrieve` come from: the searched workspace alone.
use nexus_ai.Base.{
  ℕ, ◌≡◌, refl, true, All, ok, inl, inr, ◌⊎◌, All-map_imp, Any, Any-map_imp, ap, List,
}
use nexus_ai.Base.Float.{FloatOps}
use nexus_ai.Base.Text.{Text}
use nexus_ai.Config.{Settings}
use nexus_ai.Database.{Db, Chunk, Citation}
use nexus_ai.Providers.{EmbeddingProvider, Platform}
use nexus_ai.VectorStore.{VectorStore, SearchResult, Payload, IsTenantScoped}
use nexus_ai.Retrieval.{RetrievalResult, is_visible}
use nexus_ai.Retrieval.Sources.{retrieve-From, All-both, All-Any}
use nexus_ai.Retrieval.Whole.{retrieve}

module _ {F S : Type 0} (store : VectorStore F S) (s : S) (db : Db F) (workspace : ℕ) where
  -- A search of the workspace, in the state of the store, finds a vector with this payload.
  abbrev pub IsHeld : Payload → Type 0
  IsHeld payload =
      (query : List F) × (limit : ℕ) × (s' : S) × (hits : List (SearchResult F)) × (store.search
          query workspace limit s
        ≡ (ok hits, s'))
      × Any (λ hit. hit.payload ≡ payload) hits

  -- A passage with these ids and this text is the payload of a vector of the workspace that the
  -- store holds, or a row of the chunks whose document is in the workspace and not deleted.
  abbrev pub IsSourced : ℕ → ℕ → Text → Type 0
  IsSourced chunk_id document_id text =
      ((p : Payload) × IsHeld p
        × (p.workspace_id ≡ workspace)
        × (p.chunk_id ≡ chunk_id)
        × (p.document_id ≡ document_id)
        × (p.text ≡ text))
      ⊎ ((c : Chunk) × Any (λ row. row ≡ c) db.chunks
          × (is_visible db workspace c ≡ true)
          × (c.id ≡ chunk_id)
          × (c.document_id ≡ document_id)
          × (c.text ≡ text))

  abbrev pub CitationFrom : Citation F → Type 0
  CitationFrom c = IsSourced c.chunk_id c.document_id c.text

  pub hits-IsSourced :
      IsTenantScoped store
      → (v : List F) (limit : ℕ) (s' : S) (hits : List (SearchResult F))
      → store.search v workspace limit s ≡ (ok hits, s')
      → All (λ hit. IsSourced hit.payload.chunk_id hit.payload.document_id hit.payload.text) hits
  hits-IsSourced contract v limit s' hits call =
      All-map_imp
        (λ hit both.
          inl (hit.payload, (v, limit, s', hits, call, both.0), both.1, refl, refl, refl))
        hits
        (All-both (λ hit. Any (λ h. h.payload ≡ hit.payload) hits)
          (λ hit. hit.payload.workspace_id ≡ workspace) hits
          (All-map_imp (λ hit found. Any-map_imp (λ h same. ap (λ r. r.payload) same) hits found)
            hits (All-Any hits))
          ((contract.scoped v workspace limit s s' hits call).0))

-- With a vector store that keeps the contract, each citation that `retrieve` returns is the payload
-- of a vector of the workspace that the store holds, or a row of the chunks whose document is in
-- the workspace and not deleted.
pub retrieve-isolated :
    {F S : Type 0} (fl : FloatOps F) (platform : Platform) (round6 : F → F)
    (store : VectorStore F S) (embedder : EmbeddingProvider F) (settings : Settings F) (db : Db F)
    (workspace : ℕ) (query : Text) (s s' : S) (result : RetrievalResult F)
    → IsTenantScoped store
    → retrieve fl platform round6 embedder store settings db workspace query s ≡ (ok result, s')
    → All
        (CitationFrom store (store.ensure_ready embedder.dimension s).1 db workspace)
        result.citations
retrieve-isolated fl platform round6 store embedder settings db workspace query s s' result contract
      e =
    let ready = (store.ensure_ready embedder.dimension s).1 in
    retrieve-From fl platform (IsSourced store ready db workspace) round6 store embedder settings db
      workspace query s s' result (hits-IsSourced store ready db workspace contract)
      (λ c row visible. inr (c, row, visible, refl, refl, refl)) e
