-- ===== src/Retrieval/Fusion.antt =====
-- What `_fuse` returns: every chunk of the lists once, with its reciprocal-rank score, best first.
use nexus_ai.Base.{
  ℕ, ◌+◌, ◌≡◌, refl, ap, ◌∙◌, Bool, true, false, ◌||◌, List, [], ◌∷◌, map, any, count, is_some,
  nat_beq, nat_eq, arith, IsOrder, IsSortedDesc, sorted_desc-IsSortedDesc, count-sorted_desc,
}
use nexus_ai.Base.Dict
use nexus_ai.Base.Dict.{Dict}
use nexus_ai.Base.Float.{FloatOps}
use nexus_ai.Retrieval.{RetrievedChunk, by_score}
use nexus_ai.Retrieval.Ranking.{
  Fused, add_chunk, add_ranked, add_lists, score_in, rescored, nothing_fused, fuse,
}

module _ {F : Type 0} (fl : FloatOps F) where
  abbrev pub has_id : ℕ → RetrievedChunk F → Bool
  has_id id c = nat_beq c.chunk_id id

  abbrev pub one_if : Bool → ℕ
  one_if true = 1
  one_if false = 0

  -- The chunk ids of the state: one entry for each id of `ids`.
  record Holds (st : Fused F) (present : ℕ → Bool) : Type 0 where
    once : (id : ℕ) → count (has_id id) (Dict.values st.fused) ≡ one_if (present id)
    known : (id : ℕ) → is_some (Dict.lookup id st.fused) ≡ present id

  count-insert_new :
      (id : ℕ) (c : RetrievedChunk F) (d : Dict ℕ (RetrievedChunk F))
      → is_some (Dict.lookup c.chunk_id d) ≡ false
      → count (has_id id) (Dict.values (Dict.insert c.chunk_id c d))
        ≡ one_if (has_id id c) + count (has_id id) (Dict.values d)
  unfolding Dict.insert Dict.lookup
  count-insert_new id c [] h = ground arith
  count-insert_new id c ((k, x) ∷ d) h = ground (arith, count-insert_new id c d)

  add_chunk-Holds :
      (rank : ℕ) (c : RetrievedChunk F) (st : Fused F) (present : ℕ → Bool)
      → Holds st present
      → Holds (add_chunk fl rank c st) (λ id. present id || has_id id c)
  unfolding add_chunk
  add_chunk-Holds rank c st present h = record {
    once = λ id.
        ground (arith, h.once id, h.known id, h.known c.chunk_id, count-insert_new id c st.fused);
    known = λ id.
        ground (arith, h.known id, h.known c.chunk_id, Dict.lookup-insert c.chunk_id id c st.fused);
  }

  -- Whether some chunk of the list has the id.
  abbrev pub occurs : ℕ → List (RetrievedChunk F) → Bool
  occurs id = any (has_id id)

  Holds-ext : (st : Fused F) (p q : ℕ → Bool) → ((id : ℕ) → p id ≡ q id) → Holds st p → Holds st q
  Holds-ext st p q e h = record {
    once = λ id. h.once id ∙ ap one_if (e id);
    known = λ id. h.known id ∙ e id;
  }

  add_ranked-Holds :
      (rank : ℕ) (cs : List (RetrievedChunk F)) (st : Fused F) (present : ℕ → Bool)
      → Holds st present
      → Holds (add_ranked fl rank cs st) (λ id. present id || occurs id cs)
  unfolding add_ranked
  add_ranked-Holds rank [] st present h = Holds-ext st _ _ (λ id. ground arith) h
  add_ranked-Holds rank (c ∷ cs) st present h =
      Holds-ext (add_ranked fl (rank + 1) cs (add_chunk fl rank c st)) _ _ (λ id. ground arith)
        (add_ranked-Holds (rank + 1) cs (add_chunk fl rank c st) _
          (add_chunk-Holds rank c st present h))

  add_lists-Holds :
      (ranked : List (List (RetrievedChunk F))) (st : Fused F) (present : ℕ → Bool)
      → Holds st present
      → Holds (add_lists fl ranked st) (λ id. present id || any (occurs id) ranked)
  unfolding add_lists
  add_lists-Holds [] st present h = Holds-ext st _ _ (λ id. ground arith) h
  add_lists-Holds (cs ∷ rest) st present h =
      Holds-ext (add_lists fl rest (add_ranked fl 0 cs st)) _ _ (λ id. ground arith)
        (add_lists-Holds rest (add_ranked fl 0 cs st) _ (add_ranked-Holds 0 cs st present h))

  count-rescored :
      (id : ℕ) (d : Dict ℕ F) (cs : List (RetrievedChunk F))
      → count (has_id id) (map (rescored fl d) cs) ≡ count (has_id id) cs
  unfolding rescored
  count-rescored id d [] = refl
  count-rescored id d (c ∷ cs) = ground (arith, count-rescored id d cs)

  rescored-IsSortedDesc :
      (d : Dict ℕ F) (cs : List (RetrievedChunk F))
      → IsSortedDesc (λ a b. fl.leq (score_in fl d a) (score_in fl d b)) cs
      → IsSortedDesc (by_score fl) (map (rescored fl d) cs)
  unfolding rescored
  rescored-IsSortedDesc d [] h = tt
  rescored-IsSortedDesc d (c ∷ []) h = tt
  rescored-IsSortedDesc d (b ∷ c ∷ cs) h = (h.0, rescored-IsSortedDesc d (c ∷ cs) h.1)

  nothing_fused-Holds : Holds (nothing_fused fl) (λ id. false)
  unfolding Dict.lookup
  nothing_fused-Holds = record { once = λ id. refl; known = λ id. refl }

  -- Where `<=` is a total order: the fused ranking holds every chunk id of the lists exactly once,
  -- and no other, and it is sorted by its scores, best first.
  pub fuse-merges :
      (order : IsOrder fl.leq) (ranked : List (List (RetrievedChunk F)))
      → ((id : ℕ) → count (has_id id) (fuse fl ranked) ≡ one_if (any (occurs id) ranked))
        × IsSortedDesc (by_score fl) (fuse fl ranked)
  unfolding fuse
  fuse-merges order ranked =
      let st = add_lists fl ranked (nothing_fused fl) in
      let leq =
        λ (a b : RetrievedChunk F). fl.leq (score_in fl st.scores a) (score_in fl st.scores b) in
      let held = add_lists-Holds ranked (nothing_fused fl) (λ id. false) nothing_fused-Holds in
      let score_order : IsOrder leq = record {
        total = λ a b. order.total (score_in fl st.scores a) (score_in fl st.scores b);
        trans = λ a b c.
            order.trans (score_in fl st.scores a) (score_in fl st.scores b)
              (score_in fl st.scores c);
      } in
      (
        (λ id.
            count-rescored id st.scores _
            ∙ count-sorted_desc leq (has_id id) (Dict.values st.fused)
            ∙ held.once id),
        rescored-IsSortedDesc st.scores _
            (sorted_desc-IsSortedDesc leq score_order (Dict.values st.fused)),
      )
