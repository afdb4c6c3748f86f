-- ===== src/Chunker/Loop.antt =====
-- The loop of `chunk_pages` runs to its end, and its step is in range.
use nexus_ai.Base.{
  ℕ, zero, suc, ◌+◌, ◌-◌, ◌≤◌, ◌<◌, ◌≡◌, Option, List, [], ◌++◌, ltb, length, arith, Bool-cases,
  inl, inr,
}
use nexus_ai.Base.Int.{ℤ, pos, negsuc}
use nexus_ai.Base.Text.{Text}
use nexus_ai.Chunker.{TextChunk, step_of, window_at, emit, windows, chunk_text, latest_of}

-- The step makes progress and never passes the size; an overlap in range is kept as it is.
pub step_of_bounds :
    (size : ℕ) (overlap : ℤ)
    → 1 ≤ size
    → (1 ≤ step_of size overlap)
      × (step_of size overlap ≤ size)
      × ((n : ℕ) → overlap ≡ pos n → n < size → step_of size overlap + n ≡ size)
unfolding step_of
step_of_bounds size (pos k) h = (omega arith, omega arith, λ n e lt. ground arith)
step_of_bounds size (negsuc k) h = (omega arith, omega arith, λ n e lt. ground arith)

module _ (page : Option ℕ) (section : Option Text) (text : Text) (size step : ℕ) where
  -- `while start < len(text)` as a relation without fuel: from a start and the next ordinal the loop
  -- comes to its end, with these chunks and this ordinal. A loop that goes on for ever has none.
  pub data Loops : ℕ → ℕ → List TextChunk × ℕ → Type 0 where
    leaves : {start ordinal : ℕ} → length text ≤ start → Loops start ordinal ([], ordinal)
    goes_on :
        {start ordinal : ℕ} (rest : List TextChunk × ℕ)
        → start < length text
        → Loops (start + step) (emit page section ordinal (window_at text size start)).1 rest
        → Loops start ordinal
            ((emit page section ordinal (window_at text size start)).0 ++ rest.0, rest.1)

  -- Fuel for what is left of the text is enough.
  windows-Loops :
      (fuel start ordinal : ℕ)
      → 1 ≤ step
      → length text - start ≤ fuel
      → Loops start ordinal (windows page section text size step fuel start ordinal)
  unfolding windows
  windows-Loops zero start ordinal h fits = leaves (omega arith)
  windows-Loops (suc fuel) start ordinal h fits = elim (Bool-cases (ltb start (length text))) [
    | inl more ↦
        let next = (emit page section ordinal (window_at text size start)).1 in
        let left : start < length text = ground arith in
        rw more (
          goes_on (windows page section text size step fuel (start + step) next) left
            (windows-Loops fuel (start + step) next h (omega arith)))
    | inr done ↦ rw done (leaves (ground arith))
  ]

-- The loop of `chunk_pages` over the windows of a page ends, for every size that `chunk_pages`
-- takes and every overlap: with the step made of them, it comes to its own end, `start` past the
-- text, with the chunks that `chunk_text` gives.
pub chunk_text-Loops :
    (headings : Text → List Text) (size : ℕ) (overlap : ℤ) (page : Option ℕ) (text : Text)
    (ordinal : ℕ)
    → 1 ≤ size
    → let step = step_of size overlap in
      Loops page
        (latest_of (headings text))
        text
        size
        step
        0
        ordinal
        (chunk_text headings size step page text ordinal)
unfolding chunk_text
chunk_text-Loops headings size overlap page text ordinal h =
    windows-Loops page (latest_of (headings text)) text size (step_of size overlap) (length text) 0
      ordinal ((step_of_bounds size overlap h).0) (omega arith)
