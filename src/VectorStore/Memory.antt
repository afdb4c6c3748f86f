-- ===== src/VectorStore/Memory.antt =====
-- app/ai/vectorstore/memory.py: the in-memory store.
pub mod Laws
use nexus_ai.Base.{
  ℕ, ◌≤◌, ◌≡◌, ◌≢◌, refl, Bool, true, false, ◌&&◌, not, Option, none, some, List, [], ◌∷◌, map,
  if◌then◌else◌, arith, All, All-take, All-filter, All-sorted_desc, length, take, length-take-le,
  filter, sorted_desc, sorted_desc-perm, Perm, IsOrder, IsSortedDesc, sorted_desc-IsSortedDesc, ok,
  Exec, nat_beq, nat_eq, nat_beq_iff, length-take, length-sorted_desc, length-map, min,
}
use nexus_ai.Base.Dict
use nexus_ai.Base.Dict.{Dict}
use nexus_ai.Base.Float.{FloatOps}
use nexus_ai.Similarity.{cosine}
use nexus_ai.VectorStore.{Payload, VectorRecord, SearchResult, VectorStore, IsTenantScoped}

-- `self._records`
abbrev pub Records : Type 0 → Type 0
Records F = Dict ℕ (VectorRecord F)

abbrev pub in_workspace : {F : Type 0} → ℕ → VectorRecord F → Bool
in_workspace workspace record' = nat_beq record'.payload.workspace_id workspace

-- Whether `delete_by_document` deletes the record.
abbrev pub is_of : {F : Type 0} → ℕ → ℕ → VectorRecord F → Bool
is_of workspace document record' =
    nat_beq record'.payload.workspace_id workspace && nat_beq record'.payload.document_id document

unfoldable pub upsert : {F : Type 0} → List (VectorRecord F) → Records F → Records F
unfolding Dict.insert
upsert [] records = records
upsert (r ∷ rest) records = upsert rest (Dict.insert r.id r records)

unfoldable pub delete_by_document : {F : Type 0} → ℕ → ℕ → Records F → Records F
delete_by_document workspace document = filter (λ e. not (is_of workspace document e.1))

module _ {F : Type 0} (fl : FloatOps F) where
  abbrev pub by_score : SearchResult F → SearchResult F → Bool
  by_score a b = fl.leq a.score b.score

  unfoldable pub scored : List F → VectorRecord F → SearchResult F
  scored query r = record { id = r.id; score = cosine fl query r.vector; payload = r.payload }

  unfoldable pub search : List F → ℕ → ℕ → Records F → List (SearchResult F)
  search query workspace limit records = take limit (
      sorted_desc by_score
        (map (scored query) (filter (in_workspace workspace) (Dict.values records))))

  unfoldable pub memory_store : VectorStore F (Records F)
  unfolding search upsert delete_by_document
  memory_store = record {
    ensure_ready = λ dimension s. (ok tt, s);
    upsert = λ records s. (ok tt, upsert records s);
    search = λ query workspace limit s. (ok (search query workspace limit s), s);
    delete_by_document = λ workspace document s. (ok tt, delete_by_document workspace document s);
  }
