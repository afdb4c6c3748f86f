-- ===== src/Retrieval/Ranking.antt =====
-- app/services/retrieval.py, `_fuse` and `_rerank`.
use nexus_ai.Base.{
  ℕ, ◌+◌, Bool, true, false, List, [], ◌∷◌, map, if◌then◌else◌, take, is_some, nat_beq, ltb,
  sorted_desc, nat_eq,
}
use nexus_ai.Base.Dict
use nexus_ai.Base.Dict.{Dict}
use nexus_ai.Base.Float.{FloatOps}
use nexus_ai.Base.Text.{Text}
use nexus_ai.Providers.{Platform}
use nexus_ai.Retrieval.{RetrievedChunk, rrf_k, set_of, tokens, overlap}

-- The two dictionaries of `_fuse`, by chunk id.
pub record Fused (F : Type 0) : Type 0 where
  pub fused : Dict ℕ (RetrievedChunk F)
  pub scores : Dict ℕ F

module _ {F : Type 0} (fl : FloatOps F) where
  -- `1.0 / (_RRF_K + rank + 1)`
  unfoldable pub term_of : ℕ → F
  term_of rank = fl.div (fl.of_nat 1) (fl.of_nat (rrf_k + rank + 1))

  unfoldable pub add_chunk : ℕ → RetrievedChunk F → Fused F → Fused F
  add_chunk rank chunk st = record {
    fused =
        if is_some (Dict.lookup chunk.chunk_id st.fused)
        then st.fused
        else Dict.insert chunk.chunk_id chunk st.fused;
    scores =
        Dict.insert chunk.chunk_id
          (fl.add (Dict.get_or chunk.chunk_id st.scores fl.zero_float) (term_of rank)) st.scores;
  }

  -- `for rank, chunk in enumerate(chunks)`
  unfoldable pub add_ranked : ℕ → List (RetrievedChunk F) → Fused F → Fused F
  unfolding add_chunk
  add_ranked rank [] st = st
  add_ranked rank (c ∷ cs) st = add_ranked (rank + 1) cs (add_chunk rank c st)

  unfoldable pub add_lists : List (List (RetrievedChunk F)) → Fused F → Fused F
  unfolding add_ranked
  add_lists [] st = st
  add_lists (cs ∷ rest) st = add_lists rest (add_ranked 0 cs st)

  abbrev pub score_in : Dict ℕ F → RetrievedChunk F → F
  score_in scores c = Dict.get_or c.chunk_id scores fl.zero_float

  -- `chunk.score = scores[chunk.chunk_id]`
  unfoldable pub rescored : Dict ℕ F → RetrievedChunk F → RetrievedChunk F
  rescored scores c = record c { score = score_in scores c }

  abbrev pub nothing_fused : Fused F
  nothing_fused = record { fused = []; scores = [] }

  unfoldable pub fuse : List (List (RetrievedChunk F)) → List (RetrievedChunk F)
  fuse ranked =
      let st = add_lists ranked nothing_fused in
      map (rescored st.scores) (
        sorted_desc (λ a b. fl.leq (score_in st.scores a) (score_in st.scores b))
          (Dict.values st.fused))

  -- The pairs of an overlap and a score, in Python's order of tuples.
  unfoldable pub pair_leq : ℕ → F → ℕ → F → Bool
  pair_leq m x n y = if ltb m n then true else if nat_beq m n then fl.leq x y else false

  unfoldable pub rerank : Platform → Text → List (RetrievedChunk F) → ℕ → List (RetrievedChunk F)
  unfolding pair_leq set_of tokens overlap
  rerank platform query candidates top_k =
      let terms = set_of (tokens platform query) in
      take top_k (
        sorted_desc
          (λ a b.
            pair_leq (overlap platform terms a.text) a.score (overlap platform terms b.text)
              b.score)
          candidates)
