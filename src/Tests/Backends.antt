-- ===== src/Tests/Backends.antt =====
-- A Qdrant client over one list of points, and the store of the settings over it.
use nexus_ai.Base.{
  ℕ, ◌≡◌, refl, Bool, true, false, ◌&&◌, not, Option, none, some, List, [], ◌∷◌, ◌++◌, map, take,
  filter, All, All-take, All-filter_test, All-map_imp, length-take-le, nat_beq, nat_eq, ok, pure,
  arith,
}
use nexus_ai.Base.Float.{whole}
use nexus_ai.Base.Text.{codes}
use nexus_ai.Config.{Settings, defaults}
use nexus_ai.VectorStore.{Payload, VectorRecord}
use nexus_ai.VectorStore.Qdrant.{
  FieldCondition, ScoredPoint, QdrantClient, member_of, Meets, IsFiltered, qdrant_store, result_of,
}
use nexus_ai.VectorStore.Factory.{get_vector_store}
use nexus_ai.VectorStore.Backends.{IsChosen, get_vector_store-IsTenantScoped}
use nexus_ai.Tests.Vectors.{vector_of}

abbrev same_number : ℕ → Option ℕ → Bool
same_number n none = false
same_number n (some m) = nat_beq m n

abbrev meets_all : List FieldCondition → Payload → Bool
meets_all [] payload = true
meets_all (c ∷ cs) payload = same_number c.value (member_of c.key payload) && meets_all cs payload

same_number_sound : (n : ℕ) (found : Option ℕ) → same_number n found ≡ true → found ≡ some n
same_number_sound n none h = ground arith
same_number_sound n (some m) h = ground arith

meets_all_sound :
    (cs : List FieldCondition) (payload : Payload)
    → meets_all cs payload ≡ true
    → All (λ c. Meets c payload) cs
meets_all_sound [] payload h = tt
meets_all_sound (c ∷ cs) payload h = (
  same_number_sound c.value (member_of c.key payload) (ground arith),
  meets_all_sound cs payload (ground arith),
)

abbrev point_of : VectorRecord ℕ → ScoredPoint ℕ
point_of r = record { id = r.id; score = 0; payload = r.payload }

abbrev found_by : List FieldCondition → ScoredPoint ℕ → Bool
found_by conditions point = meets_all conditions point.payload

abbrev client : QdrantClient ℕ (List (ScoredPoint ℕ))
client = record {
  collection_exists = λ collection. pure true;
  create_collection = λ collection size. pure tt;
  upsert = λ collection records points. (ok tt, map point_of records ++ points);
  query_points = λ collection query conditions limit points.
      (ok (take limit (filter (found_by conditions) points)), points);
  delete = λ collection conditions points.
      (ok tt, filter (λ point. not (found_by conditions point)) points);
}

client-IsFiltered : IsFiltered client
client-IsFiltered = record {
  filtered = λ collection query conditions limit s s' points e.
      let found = filter (found_by conditions) s in
      let same : take limit found ≡ points = ground arith in
      let test = λ (point : ScoredPoint ℕ). found_by conditions point ≡ true in
      rw (← same) (
        All-map_imp (λ point h. meets_all_sound conditions point.payload h) (take limit found)
            (All-take test limit found (All-filter_test (found_by conditions) s)),
        length-take-le limit found,
      );
}

abbrev on_qdrant : Settings ℕ
on_qdrant = record (defaults 0 0 1 15) { vector_backend = codes "qdrant" }

get_vector_store-IsTenantScoped_example :
    IsChosen on_qdrant (get_vector_store whole client on_qdrant)
get_vector_store-IsTenantScoped_example =
    get_vector_store-IsTenantScoped client client-IsFiltered whole on_qdrant

abbrev two_points : List (ScoredPoint ℕ)
two_points = point_of (vector_of 1 1 7 5) ∷ point_of (vector_of 3 2 7 9) ∷ []

-- A search of workspace 2 finds its point alone.
search_two :
    ((qdrant_store client (codes "nexus_chunks")).search (1 ∷ []) 2 5 two_points).0
    ≡ ok (result_of (point_of (vector_of 3 2 7 9)) ∷ [])
unfolding qdrant_store
search_two = refl

-- A deletion of document 7 of workspace 1 leaves the document 7 of workspace 2.
delete_seven :
    (qdrant_store client (codes "nexus_chunks")).delete_by_document 1 7 two_points
    ≡ (ok tt, point_of (vector_of 3 2 7 9) ∷ [])
unfolding qdrant_store
delete_seven = refl
