-- ===== src/Chunker/Pages.antt =====
-- `chunk_pages` as a whole: it refuses a size below 1, and else its chunks are numbered from 0
-- without a gap, within the size, and reach every character of every page that is no space.
use nexus_ai.Base.{
  ℕ, zero, suc, ◌≤◌, ◌≡◌, refl, false, some, List, [], ◌∷◌, length, arith, subst, All, All-append,
  Any, Any-append_left, Any-append_right, get_elem?, ok, err, value_error,
}
use nexus_ai.Base.Int.{ℤ, pos, negsuc, pos_part}
use nexus_ai.Base.Text.{Text, is_space, strip}
use nexus_ai.Chunker.{
  ExtractedPage, TextChunk, step_of, chunk_text, chunk_from, chunk_pages, latest_of,
}
use nexus_ai.Chunker.Loop.{step_of_bounds}
use nexus_ai.Chunker.Windows.{
  AreNumbered, AreNumbered-append, IsGood, Reaches, windows-AreNumbered, windows-IsGood,
  windows-Reaches,
}

module _ (headings : Text → List Text) (size step : ℕ) where
  chunk_from-AreNumbered :
      (pages : List ExtractedPage) (n : ℕ) → AreNumbered n (chunk_from headings size step pages n)
  unfolding chunk_from chunk_text
  chunk_from-AreNumbered [] n = tt
  chunk_from-AreNumbered (p ∷ ps) n =
      let t = strip p.text in
      let (chunks, next) = chunk_text headings size step p.page t n in
      let (numbered, counted) =
        windows-AreNumbered p.page (latest_of (headings t)) t size step (length t) 0 n in
      let rest = chunk_from headings size step ps next in
      AreNumbered-append n chunks rest numbered
        (subst (λ k. AreNumbered k rest) counted (chunk_from-AreNumbered ps next))

  chunk_from-IsGood :
      (pages : List ExtractedPage) (n : ℕ)
      → All (IsGood size) (chunk_from headings size step pages n)
  unfolding chunk_from chunk_text
  chunk_from-IsGood [] n = tt
  chunk_from-IsGood (p ∷ ps) n =
      let t = strip p.text in
      let (chunks, next) = chunk_text headings size step p.page t n in
      All-append (IsGood size) chunks _
        (windows-IsGood p.page (latest_of (headings t)) t size step (length t) 0 n)
        (chunk_from-IsGood ps next)

  chunk_from-Reaches :
      (pages : List ExtractedPage) (n j i x : ℕ) (p : ExtractedPage)
      → 1 ≤ step
      → step ≤ size
      → get_elem? pages j ≡ some p
      → get_elem? (strip p.text) i ≡ some x
      → is_space x ≡ false
      → Any (λ c. Reaches (strip p.text) size i c.text) (chunk_from headings size step pages n)
  unfolding chunk_from chunk_text
  chunk_from-Reaches [] n j i x p lo hi page at solid = ground arith
  chunk_from-Reaches (q ∷ ps) n zero i x p lo hi page at solid =
      let same : q ≡ p = ground arith in
      let t = strip p.text in
      let (chunks, next) = chunk_text headings size step p.page t n in
      rw same (
        Any-append_left (λ c. Reaches t size i c.text) chunks _
          (windows-Reaches p.page (latest_of (headings t)) t size step (length t) 0 n i x lo hi
            (omega arith) (omega arith) at solid))
  chunk_from-Reaches (q ∷ ps) n (suc j) i x p lo hi page at solid =
      let (chunks, next) = chunk_text headings size step q.page (strip q.text) n in
      Any-append_right (λ c. Reaches (strip p.text) size i c.text) chunks _
        (chunk_from-Reaches ps next j i x p lo hi page at solid)

-- A size of at most 0 is refused. Any other size gives chunks: their ordinals count up from 0
-- without a gap, and each has some text, stripped, with at most `size` characters, at least one
-- word, and its words counted.
pub chunk_pages-IsGood :
    (headings : Text → List Text) (pages : List ExtractedPage) (size overlap : ℤ)
    → (pos_part size ≡ 0 → chunk_pages headings pages size overlap ≡ err value_error)
      × (1 ≤ pos_part size
          → (chunks : List TextChunk) × (chunk_pages headings pages size overlap ≡ ok chunks)
            × AreNumbered 0 chunks
            × All (IsGood (pos_part size)) chunks)
unfolding chunk_pages
chunk_pages-IsGood headings pages (negsuc n) overlap = ((λ z. refl), λ h. absurd (omega arith))
chunk_pages-IsGood headings pages (pos zero) overlap = ((λ z. refl), λ h. absurd (omega arith))
chunk_pages-IsGood headings pages (pos (suc n)) overlap =
    let step = step_of (suc n) overlap in
    (
      (λ z. absurd (omega arith)),
      λ h. (
        chunk_from headings (suc n) step pages 0,
        refl,
        chunk_from-AreNumbered headings (suc n) step pages 0,
        chunk_from-IsGood headings (suc n) step pages 0,
      ),
    )

-- No text is lost: where the stripped text of a page has a character that is no space, some chunk
-- is the window of a stretch of that text in which the character lies.
pub chunk_pages-Reaches :
    (headings : Text → List Text) (pages : List ExtractedPage) (size overlap : ℤ)
    (chunks : List TextChunk) (j i x : ℕ) (p : ExtractedPage)
    → chunk_pages headings pages size overlap ≡ ok chunks
    → get_elem? pages j ≡ some p
    → get_elem? (strip p.text) i ≡ some x
    → is_space x ≡ false
    → Any (λ c. Reaches (strip p.text) (pos_part size) i c.text) chunks
unfolding chunk_pages
chunk_pages-Reaches headings pages (negsuc n) overlap chunks j i x p run page at solid = cc
chunk_pages-Reaches headings pages (pos zero) overlap chunks j i x p run page at solid = cc
chunk_pages-Reaches headings pages (pos (suc n)) overlap chunks j i x p run page at solid =
    let step = step_of (suc n) overlap in
    let (lo, hi, _) = step_of_bounds (suc n) overlap (omega arith) in
    let same : chunk_from headings (suc n) step pages 0 ≡ chunks = cc in
    rw (← same) (chunk_from-Reaches headings (suc n) step pages 0 j i x p lo hi page at solid)
