-- ===== src/VectorStore/Factory.antt =====
-- app/ai/vectorstore/factory.py. The records of the in-memory store, which is one for the process,
-- stand beside the state of the Qdrant client, which is one of `settings.qdrant_url`, so that every
-- backend is a store of both.
use nexus_ai.Base.{if◌then◌else◌, list_beq, nat_eq, Exec, Result, ok, err, value_error}
use nexus_ai.Base.Float.{FloatOps}
use nexus_ai.Base.Text.{codes}
use nexus_ai.Config.{Settings}
use nexus_ai.VectorStore.{VectorStore}
use nexus_ai.VectorStore.Memory.{Records, memory_store}
use nexus_ai.VectorStore.Qdrant.{QdrantClient, qdrant_store}

module _ {S T : Type 0} where
  -- A call of a store in the states of both backends.
  abbrev pub on_first : {A : Type 0} → Exec S A → Exec (S × T) A
  on_first call s = let (r, s') = call s.0 in (r, (s', s.1))

  abbrev pub on_second : {A : Type 0} → Exec T A → Exec (S × T) A
  on_second call s = let (r, t) = call s.1 in (r, (s.0, t))

  abbrev pub store_on_first : {F : Type 0} → VectorStore F S → VectorStore F (S × T)
  store_on_first store = record {
    ensure_ready = λ dimension. on_first (store.ensure_ready dimension);
    upsert = λ records. on_first (store.upsert records);
    search = λ query workspace limit. on_first (store.search query workspace limit);
    delete_by_document =
        λ workspace document. on_first (store.delete_by_document workspace document);
  }

  abbrev pub store_on_second : {F : Type 0} → VectorStore F T → VectorStore F (S × T)
  store_on_second store = record {
    ensure_ready = λ dimension. on_second (store.ensure_ready dimension);
    upsert = λ records. on_second (store.upsert records);
    search = λ query workspace limit. on_second (store.search query workspace limit);
    delete_by_document =
        λ workspace document. on_second (store.delete_by_document workspace document);
  }

module _ {F T : Type 0} (fl : FloatOps F) (client : QdrantClient F T) where
  unfoldable pub get_vector_store : Settings F → Result (VectorStore F (Records F × T))
  get_vector_store settings =
      if list_beq settings.vector_backend (codes "memory")
      then ok (store_on_first (memory_store fl))
      else if list_beq settings.vector_backend (codes "qdrant")
      then ok (store_on_second (qdrant_store client settings.qdrant_collection))
      else err value_error
