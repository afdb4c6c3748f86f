-- ===== src/VectorStore.antt =====
-- app/ai/vectorstore/base.py: the protocol that the in-memory store and the Qdrant adapter
-- implement. A UUID and the text that `str` makes of it are one number.
pub mod Memory
pub mod Qdrant
pub mod Factory
pub mod Backends
use nexus_ai.Base.{ℕ, ◌≡◌, Option, List, Exec, All, length, ◌≤◌, Result, ok, err, ◌≢◌}
use nexus_ai.Base.Text.{Text}

-- The payload that the ingestion pipeline gives to a record.
pub record Payload : Type 0 where
  pub workspace_id : ℕ
  pub document_id : ℕ
  pub chunk_id : ℕ
  pub ordinal : ℕ
  pub page : Option ℕ
  pub section : Option Text
  pub text : Text

pub record VectorRecord (F : Type 0) : Type 0 where
  pub id : ℕ
  pub vector : List F
  pub payload : Payload

pub record SearchResult (F : Type 0) : Type 0 where
  pub id : ℕ
  pub score : F
  pub payload : Payload

-- A store with states `S`. A call may raise; what it wrote before stays.
pub record VectorStore (F S : Type 0) : Type 0 where
  pub ensure_ready : ℕ → Exec S Unit
  pub upsert : List (VectorRecord F) → Exec S Unit
  -- the embedding, the workspace and the limit
  pub search : List F → ℕ → ℕ → Exec S (List (SearchResult F))
  -- the workspace and the document
  pub delete_by_document : ℕ → ℕ → Exec S Unit

-- The contract: a search shows records of its workspace alone, and not more than its limit.
pub record IsTenantScoped {F S : Type 0} (store : VectorStore F S) : Type 0 where
  pub scoped :
      (query : List F) (workspace limit : ℕ) (s s' : S) (hits : List (SearchResult F))
      → store.search query workspace limit s ≡ (ok hits, s')
      → All (λ hit. hit.payload.workspace_id ≡ workspace) hits × (length hits ≤ limit)
