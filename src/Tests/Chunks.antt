-- ===== src/Tests/Chunks.antt =====
-- Two pages in windows of 4 characters, of which 1 overlaps.
use nexus_ai.Base.{◌≤◌, ◌≡◌, refl, ok, err, value_error, none, some, List, [], ◌∷◌, All, Any, arith}
use nexus_ai.Base.Int.{pos, pos_part}
use nexus_ai.Base.Text.{Text, codes, strip, is_space, word_count}
use nexus_ai.Chunker.{ExtractedPage, TextChunk, step_of, chunk_text, latest_of, chunk_pages}
use nexus_ai.Chunker.Loop.{Loops, chunk_text-Loops}
use nexus_ai.Chunker.Windows.{AreNumbered, IsGood, Reaches}
use nexus_ai.Chunker.Pages.{chunk_pages-IsGood, chunk_pages-Reaches}

abbrev no_headings : Text → List Text
no_headings text = []

abbrev first_page : ExtractedPage
first_page = record { text = codes " abcdefgh "; page = some 1 }

abbrev pages : List ExtractedPage
pages = first_page ∷ record { text = codes "xy z"; page = some 2 } ∷ []

abbrev chunks : List TextChunk
chunks =
    record { ordinal = 0; text = codes "abcd"; token_count = 1; page = some 1; section = none }
    ∷ record { ordinal = 1; text = codes "defg"; token_count = 1; page = some 1; section = none }
    ∷ record { ordinal = 2; text = codes "gh"; token_count = 1; page = some 1; section = none }
    ∷ record { ordinal = 3; text = codes "xy z"; token_count = 2; page = some 2; section = none }
    ∷ record { ordinal = 4; text = codes "z"; token_count = 1; page = some 2; section = none }
    ∷ []

chunk_pages-two : chunk_pages no_headings pages (pos 4) (pos 1) ≡ ok chunks
unfolding chunk_pages is_space word_count
chunk_pages-two = refl

-- An overlap past the size still leaves a step of 1.
chunk_text-Loops_example :
    Loops none none
      (codes "abcde")
      4
      (step_of 4 (pos 9))
      0
      7
      (chunk_text no_headings 4 (step_of 4 (pos 9)) none (codes "abcde") 7)
unfolding latest_of
chunk_text-Loops_example =
    chunk_text-Loops no_headings 4 (pos 9) none (codes "abcde") 7 (omega arith)

chunk_pages-IsGood_example :
    (pos_part (pos 4) ≡ 0 → chunk_pages no_headings pages (pos 4) (pos 1) ≡ err value_error)
    × (1 ≤ pos_part (pos 4)
        → (chunks' : List TextChunk) × (chunk_pages no_headings pages (pos 4) (pos 1) ≡ ok chunks')
          × AreNumbered 0 chunks'
          × All (IsGood (pos_part (pos 4))) chunks')
chunk_pages-IsGood_example = chunk_pages-IsGood no_headings pages (pos 4) (pos 1)

chunk_pages-Reaches_example :
    Any (λ c. Reaches (strip first_page.text) (pos_part (pos 4)) 5 c.text) chunks
unfolding strip is_space
chunk_pages-Reaches_example =
    chunk_pages-Reaches no_headings pages (pos 4) (pos 1) chunks 0 5 102 first_page chunk_pages-two
      refl refl refl
