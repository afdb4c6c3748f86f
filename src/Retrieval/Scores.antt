-- ===== src/Retrieval/Scores.antt =====
-- The scores that `_fuse` gives, and the order in which `_rerank` puts the candidates.
use nexus_ai.Base.{
  ℕ, ◌+◌, ◌≡◌, refl, ap, ◌∙◌, Bool, List, [], ◌∷◌, ◌++◌, map, if◌then◌else◌, drop, length, min,
  take-append-drop, length-take, length-sorted_desc, sorted_desc, sorted_desc-perm,
  sorted_desc-IsSortedDesc, IsOrder, IsSortedDesc, Perm, nat_beq, nat_eq, arith, All, Bool-cases,
  inl, inr,
}
use nexus_ai.Base.Dict
use nexus_ai.Base.Dict.{Dict}
use nexus_ai.Base.Float.{FloatOps}
use nexus_ai.Base.Text.{Text}
use nexus_ai.Providers.{Platform}
use nexus_ai.Retrieval.{RetrievedChunk, set_of, tokens, overlap}
use nexus_ai.Retrieval.Ranking.{
  Fused, add_chunk, add_ranked, add_lists, rescored, nothing_fused, fuse, rerank, pair_leq, term_of,
}

module _ {F : Type 0} (fl : FloatOps F) where
  -- The sum of `1 / (60 + rank + 1)` over the places of the id in a list, added to `acc`.
  abbrev pub sum_ranked : ℕ → ℕ → List (RetrievedChunk F) → F → F
  sum_ranked id rank [] acc = acc
  sum_ranked id rank (c ∷ cs) acc = sum_ranked id (rank + 1) cs (
      if nat_beq c.chunk_id id
      then fl.add acc (fl.div (fl.of_nat 1) (fl.of_nat (60 + rank + 1)))
      else acc)

  -- The same over all lists.
  abbrev pub sum_lists : ℕ → List (List (RetrievedChunk F)) → F → F
  sum_lists id [] acc = acc
  sum_lists id (cs ∷ rest) acc = sum_lists id rest (sum_ranked id 0 cs acc)

  abbrev score_of : ℕ → Fused F → F
  score_of id st = Dict.get_or id st.scores fl.zero_float

  add_chunk-score :
      (id rank : ℕ) (c : RetrievedChunk F) (st : Fused F)
      → score_of id (add_chunk fl rank c st) ≡ (
          if nat_beq c.chunk_id id
          then fl.add (score_of id st) (fl.div (fl.of_nat 1) (fl.of_nat (60 + rank + 1)))
          else score_of id st)
  unfolding add_chunk term_of
  add_chunk-score id rank c st = elim (Bool-cases (nat_beq c.chunk_id id)) [
    | inl e ↦
        let same : c.chunk_id ≡ id = ground arith in
        ground (
          arith,
          Dict.lookup-insert c.chunk_id id (fl.add (score_of c.chunk_id st) (term_of fl rank))
              st.scores,
        )
    | inr e ↦ ground (
      arith,
      Dict.lookup-insert c.chunk_id id (fl.add (score_of c.chunk_id st) (term_of fl rank))
          st.scores,
    )
  ]

  add_ranked-score :
      (id rank : ℕ) (cs : List (RetrievedChunk F)) (st : Fused F)
      → score_of id (add_ranked fl rank cs st) ≡ sum_ranked id rank cs (score_of id st)
  unfolding add_ranked
  add_ranked-score id rank [] st = refl
  add_ranked-score id rank (c ∷ cs) st =
      add_ranked-score id (rank + 1) cs (add_chunk fl rank c st)
      ∙ ap (sum_ranked id (rank + 1) cs) (add_chunk-score id rank c st)

  add_lists-score :
      (id : ℕ) (ranked : List (List (RetrievedChunk F))) (st : Fused F)
      → score_of id (add_lists fl ranked st) ≡ sum_lists id ranked (score_of id st)
  unfolding add_lists
  add_lists-score id [] st = refl
  add_lists-score id (cs ∷ rest) st =
      add_lists-score id rest (add_ranked fl 0 cs st)
      ∙ ap (sum_lists id rest) (add_ranked-score id 0 cs st)

  rescored-scores :
      (st : Fused F) (total : ℕ → F) (cs : List (RetrievedChunk F))
      → ((id : ℕ) → score_of id st ≡ total id)
      → All (λ c. c.score ≡ total c.chunk_id) (map (rescored fl st.scores) cs)
  unfolding rescored
  rescored-scores st total [] h = tt
  rescored-scores st total (c ∷ cs) h = (h c.chunk_id, rescored-scores st total cs h)

  -- The score of each fused chunk is the reciprocal rank sum: `1 / (60 + rank + 1)` for each place
  -- it has in a list, with ranks from 0, added up in the order of the lists.
  pub fuse-scores :
      (ranked : List (List (RetrievedChunk F)))
      → All (λ c. c.score ≡ sum_lists c.chunk_id ranked fl.zero_float) (fuse fl ranked)
  unfolding fuse Dict.lookup
  fuse-scores ranked =
      rescored-scores (add_lists fl ranked (nothing_fused fl))
        (λ id. sum_lists id ranked fl.zero_float) _
        (λ id. add_lists-score id ranked (nothing_fused fl))

  -- The order of `_rerank`: more shared terms first, then the higher score.
  abbrev pub ranks_below : Platform → Text → RetrievedChunk F → RetrievedChunk F → Bool
  ranks_below platform query a b =
      let terms = set_of (tokens platform query) in
      pair_leq fl (overlap platform terms a.text) a.score (overlap platform terms b.text) b.score

  pair_leq-IsOrder :
      (order : IsOrder fl.leq) (platform : Platform) (query : Text)
      → IsOrder (ranks_below platform query)
  unfolding pair_leq
  pair_leq-IsOrder order platform query = record {
    total = λ a b h. ground (arith, order.total a.score b.score);
    trans = λ a b c h k. ground (arith, order.trans a.score b.score c.score);
  }

  -- Where `<=` is a total order: the reranked list is the best of the candidates by shared terms
  -- and then by score: with what it leaves out it is a reordering of them that is sorted, and it
  -- leaves none out below `top_k`.
  pub rerank-best :
      (order : IsOrder fl.leq) (platform : Platform) (query : Text)
      (candidates : List (RetrievedChunk F)) (top_k : ℕ)
      → (rest : List (RetrievedChunk F)) × Perm
          (rerank fl platform query candidates top_k ++ rest)
          candidates
        × IsSortedDesc
            (ranks_below platform query)
            (rerank fl platform query candidates top_k ++ rest)
        × (length (rerank fl platform query candidates top_k) ≡ min top_k (length candidates))
  unfolding rerank
  rerank-best order platform query candidates top_k =
      let leq = ranks_below platform query in
      (
        drop top_k (sorted_desc leq candidates),
        rw take-append-drop (sorted_desc-perm leq candidates),
        rw take-append-drop
            (sorted_desc-IsSortedDesc leq (pair_leq-IsOrder order platform query) candidates),
        rw (length-take, length-sorted_desc),
      )
