-- ===== src/Retrieval/Assembly.antt =====
-- app/services/retrieval.py, `_assemble`: the context and the citations within a token budget.
use nexus_ai.Base.{
  ℕ, suc, ◌+◌, ◌≤◌, ◌<◌, ◌≡◌, ◌≢◌, refl, ap, Bool, true, false, ◌&&◌, ◌⊎◌, inl, inr, some, List, [],
  ◌∷◌, ◌++◌, map, if◌then◌else◌, take, length, ltb, arith, Bool-cases, get_elem?,
}
use nexus_ai.Base.Text.{Text, codes, decimal, join}
use nexus_ai.Database.{Citation}
use nexus_ai.Providers.{Platform}
use nexus_ai.Retrieval.{RetrievedChunk, RetrievalResult, tokens}

module _ {F : Type 0} (platform : Platform) (round6 : F → F) (budget : ℕ) where
  unfoldable pub cost_of : RetrievedChunk F → ℕ
  unfolding tokens
  cost_of c = length (tokens platform c.text)

  -- `f"[{index}] {chunk.text}"`
  unfoldable pub line_of : ℕ → RetrievedChunk F → Text
  unfolding decimal
  line_of index c = codes "[" ++ (decimal index ++ (codes "] " ++ c.text))

  -- `round(score, 6)` is a parameter.
  unfoldable pub citation_of : RetrievedChunk F → Citation F
  citation_of c = record {
    chunk_id = c.chunk_id;
    document_id = c.document_id;
    ordinal = c.ordinal;
    page = c.page;
    section = c.section;
    score = round6 c.score;
    text = c.text;
  }

  -- The loop, with `index`, whether `lines` is empty, and `used`. It gives the lines and citations
  -- that are still appended.
  unfoldable pub assemble_from :
      ℕ → Bool → ℕ → List (RetrievedChunk F) → List Text × List (Citation F)
  unfolding line_of citation_of
  assemble_from index some_line used [] = ([], [])
  assemble_from index some_line used (c ∷ cs) =
      let rest = assemble_from (index + 1) true (used + cost_of c) cs in
      if some_line && ltb budget (used + cost_of c)
      then ([], [])
      else (line_of index c ∷ rest.0, citation_of c ∷ rest.1)

  unfoldable pub assemble : List (RetrievedChunk F) → RetrievalResult F
  unfolding assemble_from join
  assemble chunks =
      let (lines, citations) = assemble_from 1 false 0 chunks in
      record { context = join (10 ∷ []) lines; citations = citations }

  -- The lines for the first `n` chunks, numbered from `index`.
  unfoldable pub numbered : ℕ → List (RetrievedChunk F) → List Text
  numbered index [] = []
  numbered index (c ∷ cs) = line_of index c ∷ numbered (index + 1) cs

  unfoldable pub total_cost : List (RetrievedChunk F) → ℕ
  total_cost [] = 0
  total_cost (c ∷ cs) = cost_of c + total_cost cs

  -- Once a line is there: the loop takes the first `n` chunks. If it takes any, they fit the
  -- budget, and it stops where the next does not fit.
  abbrev Packs : ℕ → ℕ → List (RetrievedChunk F) → ℕ → Type 0
  Packs index used chunks n =
      (n ≤ length chunks)
      × ((assemble_from index true used chunks).0 ≡ numbered index (take n chunks))
      × ((assemble_from index true used chunks).1 ≡ map citation_of (take n chunks))
      × ((n ≡ 0) ⊎ (used + total_cost (take n chunks) ≤ budget))
      × ((c : RetrievedChunk F)
          → get_elem? chunks n ≡ some c
          → budget < used + total_cost (take n chunks) + cost_of c)

  assemble_from-Packs :
      (index used : ℕ) (chunks : List (RetrievedChunk F)) → (n : ℕ) × Packs index used chunks n
  unfolding assemble_from numbered total_cost
  assemble_from-Packs index used [] = (0, (omega arith, refl, refl, inl refl, λ c h. ground arith))
  assemble_from-Packs index used (c ∷ cs) = elim (Bool-cases (ltb budget (used + cost_of c))) [
    | inl full ↦ (
      0,
      (
        omega arith,
        ground arith,
        ground arith,
        inl refl,
        λ d h. let same : c ≡ d = ground arith in rw (← same) (ground arith),
      ),
    )
    | inr fits ↦
        let (n, packs) = assemble_from-Packs (index + 1) (used + cost_of c) cs in
        let (most, lines, citations, within, next) = packs in
        (
          suc n,
          (
            omega arith,
            ground arith,
            ground arith,
            inr (packs_within used n c cs (ground arith) within),
            λ d h. let lt = next d h in omega arith,
          ),
        )
  ]
    where
      packs_within :
          (used n : ℕ) (c : RetrievedChunk F) (cs : List (RetrievedChunk F))
          → used + cost_of c ≤ budget
          → (n ≡ 0) ⊎ (used + cost_of c + total_cost (take n cs) ≤ budget)
          → used + (cost_of c + total_cost (take n cs)) ≤ budget
      packs_within used n c cs h (inl e) = rw e (omega arith)
      packs_within used n c cs h (inr le) = omega arith

  -- The packed context: it is made of the first `n` chunks, in order, the line `[i]` standing for
  -- the citation number `i`. There is at least one unless there is no chunk at all. Two or more
  -- are within the token budget together, and the chunk that follows would have passed it.
  pub assemble-packs :
      (chunks : List (RetrievedChunk F))
      → (n : ℕ) × (n ≤ length chunks)
        × ((assemble chunks).context ≡ join (10 ∷ []) (numbered 1 (take n chunks)))
        × ((assemble chunks).citations ≡ map citation_of (take n chunks))
        × (chunks ≢ [] → 1 ≤ n)
        × (2 ≤ n → total_cost (take n chunks) ≤ budget)
        × ((c : RetrievedChunk F)
            → get_elem? chunks n ≡ some c
            → budget < total_cost (take n chunks) + cost_of c)
  unfolding assemble assemble_from numbered total_cost
  assemble-packs [] =
      (0, omega arith, refl, refl, (λ h. absurd (h refl)), (λ h. omega arith), λ c h. ground arith)
  assemble-packs (c ∷ cs) =
      let (n, packs) = assemble_from-Packs 2 (0 + cost_of c) cs in
      let (most, lines, citations, within, next) = packs in
      (
        suc n,
        omega arith,
        ap (λ ls. join (10 ∷ []) (line_of 1 c ∷ ls)) lines,
        ap (λ ls. citation_of c ∷ ls) citations,
        (λ h. omega arith),
        (λ h. fits n within (omega arith)),
        λ d h. let lt = next d h in omega arith,
      )
    where
      fits :
          (n : ℕ)
          → (n ≡ 0) ⊎ (0 + cost_of c + total_cost (take n cs) ≤ budget)
          → 1 ≤ n
          → cost_of c + total_cost (take n cs) ≤ budget
      fits n (inl e) h = absurd (omega arith)
      fits n (inr le) h = omega arith
