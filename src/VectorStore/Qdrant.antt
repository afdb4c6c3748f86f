-- ===== src/VectorStore/Qdrant.antt =====
-- app/ai/vectorstore/qdrant.py: the adapter of a Qdrant collection. The client is a parameter, a
-- record of the calls that the adapter makes, each for a collection. A filter is given by its `must`
-- conditions. A point that is written is a vector record; one that a query asks for
-- `with_payload=True` comes with the payload it was written with, so `point.payload or {}` is that.
use nexus_ai.Base.{
  ℕ, ◌≡◌, ◌≤◌, Bool, if◌then◌else◌, some, Option, none, List, [], ◌∷◌, map, All, length, list_beq,
  nat_eq, Exec, pure, ◌>>=◌, ok,
}
use nexus_ai.Base.Text.{Text, codes}
use nexus_ai.VectorStore.{Payload, VectorRecord, SearchResult, VectorStore}

-- `FieldCondition(key=key, match=MatchValue(value=value))`
pub record FieldCondition : Type 0 where
  pub key : Text
  pub value : ℕ

pub record ScoredPoint (F : Type 0) : Type 0 where
  pub id : ℕ
  pub score : F
  pub payload : Payload

pub record QdrantClient (F S : Type 0) : Type 0 where
  pub collection_exists : Text → Exec S Bool
  -- the collection and the size of its vectors, compared by cosine
  pub create_collection : Text → ℕ → Exec S Unit
  pub upsert : Text → List (VectorRecord F) → Exec S Unit
  -- the collection, the query, the conditions and the limit
  pub query_points : Text → List F → List FieldCondition → ℕ → Exec S (List (ScoredPoint F))
  -- the collection and the conditions on what is deleted
  pub delete : Text → List FieldCondition → Exec S Unit

-- The member of a payload under a key, of those that are numbers and always there.
abbrev pub member_of : Text → Payload → Option ℕ
member_of key payload =
    if list_beq key (codes "workspace_id")
    then some payload.workspace_id
    else if list_beq key (codes "document_id")
    then some payload.document_id
    else if list_beq key (codes "chunk_id")
    then some payload.chunk_id
    else if list_beq key (codes "ordinal")
    then some payload.ordinal
    else none

abbrev pub Meets : FieldCondition → Payload → Type 0
Meets condition payload = member_of condition.key payload ≡ some condition.value

-- What the documentation of `query_points` says: the points of the answer meet every condition of
-- the filter, and are not more than the limit.
pub record IsFiltered {F S : Type 0} (client : QdrantClient F S) : Type 0 where
  pub filtered :
      (collection : Text) (query : List F) (conditions : List FieldCondition) (limit : ℕ) (s s' : S)
      (points : List (ScoredPoint F))
      → client.query_points collection query conditions limit s ≡ (ok points, s')
      → All (λ point. All (λ condition. Meets condition point.payload) conditions) points
        × (length points ≤ limit)

-- `_workspace_filter`
abbrev pub workspace_filter : ℕ → List FieldCondition
workspace_filter workspace = record { key = codes "workspace_id"; value = workspace } ∷ []

-- The selector of `delete_by_document`.
abbrev pub document_selector : ℕ → ℕ → List FieldCondition
document_selector workspace document =
    record { key = codes "workspace_id"; value = workspace }
    ∷ record { key = codes "document_id"; value = document }
    ∷ []

abbrev pub result_of : {F : Type 0} → ScoredPoint F → SearchResult F
result_of point = record { id = point.id; score = point.score; payload = point.payload }

module _ {F S : Type 0} (client : QdrantClient F S) where
  unfoldable pub create_unless : Bool → Text → ℕ → Exec S Unit
  create_unless exists collection dimension =
      if exists then pure tt else client.create_collection collection dimension

  unfoldable pub query_workspace : Text → List F → ℕ → ℕ → Exec S (List (SearchResult F))
  query_workspace collection query workspace limit =
      client.query_points collection query (workspace_filter workspace) limit >>= λ points.
      pure (map result_of points)

  -- `QdrantVectorStore` of a collection
  unfoldable pub qdrant_store : Text → VectorStore F S
  unfolding create_unless query_workspace
  qdrant_store collection = record {
    ensure_ready = λ dimension.
        client.collection_exists collection >>= λ exists. create_unless exists collection dimension;
    upsert = λ records. client.upsert collection records;
    search = λ query workspace limit. query_workspace collection query workspace limit;
    delete_by_document =
        λ workspace document. client.delete collection (document_selector workspace document);
  }
