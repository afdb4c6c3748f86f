-- ===== src/Retrieval/Sources.antt =====
-- What holds of every passage that the vector store and the keyword query recall holds of every
-- citation that `retrieve` makes of them.
use nexus_ai.Base.{
  ℕ, ◌+◌, ◌*◌, ◌≡◌, refl, ap, Any, Bool, true, false, ◌&&◌, List, [], ◌∷◌, map, any, ltb, arith,
  inl, inr, All, All-take, All-filter, All-filter_test, All-map_imp, All-sorted_desc, ok,
  Result-cases, is_some, Bool-cases, nat_eq,
}
use nexus_ai.Base.Dict
use nexus_ai.Base.Dict.{Dict}
use nexus_ai.Base.Float.{FloatOps}
use nexus_ai.Base.Text.{Text}
use nexus_ai.Config.{Settings}
use nexus_ai.Database.{Db, Chunk, Citation}
use nexus_ai.Providers.{EmbeddingProvider, Platform}
use nexus_ai.VectorStore.{VectorStore, SearchResult}
use nexus_ai.Retrieval.{
  RetrievedChunk, RetrievalResult, is_visible, dense, keyword, by_score, keyword_rows, of_row,
  of_hit, overlap, set_of, tokens, the_only,
}
use nexus_ai.Retrieval.Ranking.{
  Fused, add_chunk, add_ranked, add_lists, rescored, nothing_fused, fuse, rerank, score_in,
}
use nexus_ai.Retrieval.Assembly.{assemble_from, assemble, citation_of, cost_of}
use nexus_ai.Retrieval.Whole.{pack, retrieve}

All-map {ℓ} :
    {A B : Type ℓ} (P : A → Type ℓ) (Q : B → Type ℓ) (f : A → B)
    → ((a : A) → P a → Q (f a))
    → (xs : List A) → All P xs
    → All Q (map f xs)
All-map P Q f h [] p = tt
All-map P Q f h (x ∷ xs) p = (h x p.0, All-map P Q f h xs p.1)

pub All-both :
    {A : Type 0} (P Q : A → Type 0) (xs : List A) → All P xs → All Q xs → All (λ x. P x × Q x) xs
All-both P Q [] p q = tt
All-both P Q (x ∷ xs) p q = ((p.0, q.0), All-both P Q xs p.1 q.1)

pub All-Any : {A : Type 0} (xs : List A) → All (λ x. Any (λ y. y ≡ x) xs) xs
All-Any [] = tt
All-Any (x ∷ xs) = (inl refl, All-map_imp (λ y found. inr found) xs (All-Any xs))

module _ {F : Type 0} (fl : FloatOps F) (P : ℕ → ℕ → Text → Type 0) where
  abbrev pub ChunkFrom : RetrievedChunk F → Type 0
  ChunkFrom c = P c.chunk_id c.document_id c.text

  -- What the keyword query may recall: a row of the table whose document is visible.
  abbrev pub SeenFrom : Db F → ℕ → Type 0
  SeenFrom db workspace =
      (c : Chunk)
      → Any (λ row. row ≡ c) db.chunks
      → is_visible db workspace c ≡ true
      → P c.id c.document_id c.text

  add_chunk-From :
      (rank : ℕ) (c : RetrievedChunk F) (st : Fused F)
      → ChunkFrom c
      → All ChunkFrom (Dict.values st.fused)
      → All ChunkFrom (Dict.values ((add_chunk fl rank c st).fused))
  unfolding add_chunk
  add_chunk-From rank c st h k = elim (Bool-cases (is_some (Dict.lookup c.chunk_id st.fused))) [
    | inl e ↦ rw e k
    | inr e ↦ rw e (Dict.All-values-insert ChunkFrom c.chunk_id c st.fused h k)
  ]

  add_ranked-From :
      (rank : ℕ) (cs : List (RetrievedChunk F)) (st : Fused F)
      → All ChunkFrom cs
      → All ChunkFrom (Dict.values st.fused)
      → All ChunkFrom (Dict.values ((add_ranked fl rank cs st).fused))
  unfolding add_ranked
  add_ranked-From rank [] st h k = k
  add_ranked-From rank (c ∷ cs) st h k =
      add_ranked-From (rank + 1) cs (add_chunk fl rank c st) h.1 (add_chunk-From rank c st h.0 k)

  add_lists-From :
      (ranked : List (List (RetrievedChunk F))) (st : Fused F)
      → All (All ChunkFrom) ranked
      → All ChunkFrom (Dict.values st.fused)
      → All ChunkFrom (Dict.values ((add_lists fl ranked st).fused))
  unfolding add_lists
  add_lists-From [] st h k = k
  add_lists-From (cs ∷ rest) st h k =
      add_lists-From rest (add_ranked fl 0 cs st) h.1 (add_ranked-From 0 cs st h.0 k)

  fuse-From :
      (ranked : List (List (RetrievedChunk F)))
      → All (All ChunkFrom) ranked
      → All ChunkFrom (fuse fl ranked)
  unfolding fuse rescored
  fuse-From ranked h =
      let st = add_lists fl ranked (nothing_fused fl) in
      let leq =
        λ (a b : RetrievedChunk F). fl.leq (score_in fl st.scores a) (score_in fl st.scores b) in
      All-map ChunkFrom ChunkFrom (rescored fl st.scores) (λ c from. from) _
        (All-sorted_desc leq ChunkFrom (Dict.values st.fused)
          (add_lists-From ranked (nothing_fused fl) h tt))

  module _ (platform : Platform) where
    rerank-From :
        (query : Text) (cs : List (RetrievedChunk F)) (top_k : ℕ)
        → All ChunkFrom cs
        → All ChunkFrom (rerank fl platform query cs top_k)
    unfolding rerank
    rerank-From query cs top_k h = All-take ChunkFrom top_k _ (All-sorted_desc _ ChunkFrom cs h)

    keyword-From :
        (db : Db F) (workspace : ℕ) (query : Text) (limit : ℕ)
        → SeenFrom db workspace
        → All ChunkFrom (keyword fl platform db workspace query limit)
    unfolding keyword keyword_rows of_row
    keyword-From db workspace query limit h =
        let terms = set_of (tokens platform query) in
        let held = λ (c : Chunk). Any (λ row. row ≡ c) db.chunks in
        let visible = λ (c : Chunk). held c × (is_visible db workspace c ≡ true) in
        let found =
          λ (c : Chunk). is_visible db workspace c && any (λ t. platform.ilike c.text t) terms in
        All-take ChunkFrom limit _ (
          All-sorted_desc (by_score fl) ChunkFrom _ (
            All-map visible ChunkFrom (of_row fl platform terms) (λ c v. h c v.0 v.1) _
              (All-filter visible (λ c. ltb 0 (overlap platform terms c.text)) _
                (All-take visible (limit * 4) _ (
                  All-both held (λ c. is_visible db workspace c ≡ true) _
                    (All-filter held found db.chunks (All-Any db.chunks))
                    (All-map_imp (λ c e. ground arith) _ (All-filter_test found db.chunks)))))))

module _ {F : Type 0} (P : ℕ → ℕ → Text → Type 0) (platform : Platform) (round6 : F → F) where
  abbrev pub CitationFrom : Citation F → Type 0
  CitationFrom c = P c.chunk_id c.document_id c.text

  assemble_from-From :
      (fl : FloatOps F) (budget index used : ℕ) (some_line : Bool) (cs : List (RetrievedChunk F))
      → All (ChunkFrom fl P) cs
      → All CitationFrom ((assemble_from platform round6 budget index some_line used cs).1)
  unfolding assemble_from citation_of
  assemble_from-From fl budget index used some_line [] h = tt
  assemble_from-From fl budget index used some_line (c ∷ cs) h =
      elim (Bool-cases (some_line && ltb budget (used + cost_of platform round6 budget c))) [
        | inl e ↦ rw e tt
        | inr e ↦ rw e (h.0, assemble_from-From fl budget (index + 1) _ true cs h.1)
      ]

  pack-From :
      (fl : FloatOps F) (settings : Settings F) (query : Text)
      (by_vector by_word : List (RetrievedChunk F))
      → All (ChunkFrom fl P) by_vector
      → All (ChunkFrom fl P) by_word
      → All CitationFrom ((pack fl platform round6 settings query by_vector by_word).citations)
  unfolding pack assemble
  pack-From fl settings query by_vector by_word h k =
      assemble_from-From fl settings.context_token_budget 1 0 false _ (
        rerank-From fl P platform query _ settings.rerank_top_k
          (fuse-From fl P (by_vector ∷ by_word ∷ []) (h, (k, tt))))

  hits-From :
      (fl : FloatOps F) (hits : List (SearchResult F))
      → All (λ hit. P hit.payload.chunk_id hit.payload.document_id hit.payload.text) hits
      → All (ChunkFrom fl P) (map (of_hit fl platform) hits)
  unfolding of_hit
  hits-From fl hits h =
      All-map (λ hit. P hit.payload.chunk_id hit.payload.document_id hit.payload.text)
        (ChunkFrom fl P) (of_hit fl platform) (λ hit p. p) hits h

module _ {F S : Type 0} (fl : FloatOps F) (platform : Platform) (P : ℕ → ℕ → Text → Type 0) where
  -- What a search of the workspace recalls, in a state of the store.
  abbrev pub HitsFrom : VectorStore F S → ℕ → S → Type 0
  HitsFrom store workspace s =
      (v : List F) (limit : ℕ) (s' : S) (hits : List (SearchResult F))
      → store.search v workspace limit s ≡ (ok hits, s')
      → All (λ hit. P hit.payload.chunk_id hit.payload.document_id hit.payload.text) hits

  dense-From :
      (store : VectorStore F S) (embedder : EmbeddingProvider F) (workspace : ℕ) (query : Text)
      (limit : ℕ) (s s' : S) (found : List (RetrievedChunk F))
      → HitsFrom store workspace (store.ensure_ready embedder.dimension s).1
      → dense fl platform embedder store workspace query limit s ≡ (ok found, s')
      → All (ChunkFrom fl P) found
  unfolding dense
  dense-From store embedder workspace query limit s s' found near e =
      elim (Result-cases (embedder.embed (query ∷ []))) [
        | inr (x, bad) ↦ absurd (ground arith)
        | inl (vs, is) ↦ elim (Result-cases (the_only fl platform vs)) [
          | inr (x, bad) ↦ absurd (ground arith)
          | inl (v, one) ↦ elim (Result-cases ((store.ensure_ready embedder.dimension s).0)) [
            | inr (x, bad) ↦ absurd (ground arith)
            | inl (u, ready) ↦
                let s1 = (store.ensure_ready embedder.dimension s).1 in
                elim (Result-cases ((store.search v workspace limit s1).0)) [
                  | inr (x, bad) ↦ absurd (ground arith)
                  | inl (hits, answered) ↦
                      let s2 = (store.search v workspace limit s1).1 in
                      let call : store.search v workspace limit s1 ≡ (ok hits, s2) =
                        ap (λ r. (r, s2)) answered in
                      let same : map (of_hit fl platform) hits ≡ found = ground arith in
                      rw (← same)
                        (hits-From P platform (λ x. x) fl hits (near v limit s2 hits call))
                ]
          ]
        ]
      ]

  pub retrieve-From :
      (round6 : F → F) (store : VectorStore F S) (embedder : EmbeddingProvider F)
      (settings : Settings F) (db : Db F) (workspace : ℕ) (query : Text) (s s' : S)
      (result : RetrievalResult F)
      → HitsFrom store workspace (store.ensure_ready embedder.dimension s).1
      → SeenFrom fl P db workspace
      → retrieve fl platform round6 embedder store settings db workspace query s ≡ (ok result, s')
      → All (CitationFrom P platform round6) result.citations
  unfolding retrieve
  retrieve-From round6 store embedder settings db workspace query s s' result near seen e =
      let call = dense fl platform embedder store workspace query settings.retrieval_top_k s in
      elim (Result-cases call.0) [
        | inr (x, bad) ↦ absurd (ground arith)
        | inl (found, answered) ↦
            let by_word = keyword fl platform db workspace query settings.retrieval_top_k in
            let same : pack fl platform round6 settings query found by_word ≡ result =
              ground arith in
            rw (← same) (
              pack-From P platform round6 fl settings query found by_word
                (dense-From store embedder workspace query settings.retrieval_top_k s call.1 found
                  near (ap (λ r. (r, call.1)) answered))
                (keyword-From fl P platform db workspace query settings.retrieval_top_k seen))
      ]
