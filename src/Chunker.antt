-- ===== src/Chunker.antt =====
-- app/services/ingestion/chunker.py: overlapping windows over the text of each page. The matches
-- of `_HEADING_RE` in a text are those of Python's `re`, and a parameter.
pub mod Loop
pub mod Windows
pub mod Pages
use nexus_ai.Base.{
  ℕ, zero, suc, ◌+◌, ◌-◌, Bool, true, false, Option, none, some, List, [], ◌∷◌, ◌++◌, Result, ok,
  err, value_error, if◌then◌else◌, ltb, max, min, take, drop, length,
}
use nexus_ai.Base.Int.{ℤ, pos, negsuc, pos_part, min_ℤ}
use nexus_ai.Base.Text.{Text, strip, word_count}

-- app/services/ingestion/extractors.py, `ExtractedPage`
pub record ExtractedPage : Type 0 where
  pub text : Text
  pub page : Option ℕ

pub record TextChunk : Type 0 where
  pub ordinal : ℕ
  pub text : Text
  pub token_count : ℕ
  pub page : Option ℕ
  pub section : Option Text

-- `matches[-1].strip() if matches else None`
unfoldable pub latest_of : List Text → Option Text
unfolding strip
latest_of [] = none
latest_of (m ∷ []) = some (strip m)
latest_of (m ∷ n ∷ ms) = latest_of (n ∷ ms)

-- `max(1, size - max(0, min(overlap, size - 1)))`, for a size of at least 1
unfoldable pub step_of : ℕ → ℤ → ℕ
step_of size overlap = max 1 (size - pos_part (min_ℤ overlap (size - 1)))

-- `text[start : start + size].strip()`
unfoldable pub window_at : Text → ℕ → ℕ → Text
unfolding strip
window_at text size start = strip (take size (drop start text))

-- The body of the loop: a window that holds text makes a chunk with the next ordinal.
unfoldable pub emit : Option ℕ → Option Text → ℕ → Text → List TextChunk × ℕ
emit page section ordinal [] = ([], ordinal)
emit page section ordinal (c ∷ w) = (
  record {
    ordinal = ordinal;
    text = c ∷ w;
    token_count = word_count (c ∷ w);
    page = page;
    section = section;
  }
      ∷ [],
  ordinal + 1,
)

module _ (page : Option ℕ) (section : Option Text) (text : Text) (size step : ℕ) where
  -- `while start < len(text)` with fuel.
  unfoldable pub windows : ℕ → ℕ → ℕ → List TextChunk × ℕ
  unfolding window_at emit
  windows zero start ordinal = ([], ordinal)
  windows (suc fuel) start ordinal =
      let (chunks, next) = emit page section ordinal (window_at text size start) in
      let rest = windows fuel (start + step) next in
      if ltb start (length text) then (chunks ++ rest.0, rest.1) else ([], ordinal)

module _ (headings : Text → List Text) (size step : ℕ) where
  -- One page, whose text is stripped already. An empty text has no window, as the `continue` wants.
  unfoldable pub chunk_text : Option ℕ → Text → ℕ → List TextChunk × ℕ
  unfolding windows latest_of
  chunk_text page text ordinal =
      windows page (latest_of (headings text)) text size step (length text) 0 ordinal

  unfoldable pub chunk_from : List ExtractedPage → ℕ → List TextChunk
  unfolding chunk_text strip
  chunk_from [] ordinal = []
  chunk_from (p ∷ ps) ordinal =
      let (chunks, next) = chunk_text p.page (strip p.text) ordinal in chunks ++ chunk_from ps next

unfoldable pub chunk_pages :
    (Text → List Text) → List ExtractedPage → ℤ → ℤ → Result (List TextChunk)
unfolding chunk_from step_of
chunk_pages headings pages (negsuc n) overlap = err value_error
chunk_pages headings pages (pos zero) overlap = err value_error
chunk_pages headings pages (pos (suc n)) overlap =
    ok (chunk_from headings (suc n) (step_of (suc n) overlap) pages 0)
