-- ===== src/Extractors.antt =====
-- app/services/ingestion/extractors.py: the text of an uploaded file, by its extension. Decoding,
-- `html.parser`, `csv`, `pypdf` and `python-docx` are libraries, and parameters.
pub mod Html
use nexus_ai.Base.{
  ℕ, suc, ◌+◌, ◌-◌, Bool, true, false, ◌&&◌, ◌||◌, not, Option, none, some, List, [], ◌∷◌, ◌++◌,
  map, if◌then◌else◌, any, filter, ltb, nat_beq, list_beq, nat_eq, list_eq, Result, ok, err,
  unsupported_document_type, and_then,
}
use nexus_ai.Base.Dict
use nexus_ai.Base.Text.{Text, codes, strip, join}
use nexus_ai.Chunker.{ExtractedPage}

-- What the parser calls back with, in order.
pub data HtmlEvent : Type 0 where
  starttag : Text → HtmlEvent
  endtag : Text → HtmlEvent
  text_data : Text → HtmlEvent

pub record Readers : Type 0 where
  -- `str.lower`
  pub lower : Text → Text
  -- `data.decode` with replacement of errors, and with a leading BOM dropped
  pub decode_utf8 : List ℕ → Text
  pub decode_utf8_sig : List ℕ → Text
  pub html_events : Text → List HtmlEvent
  pub csv_rows : Text → Result (List (List Text))
  -- the texts of the pages, `none` for a page without one
  pub pdf_pages : List ℕ → Result (List (Option Text))
  pub docx_paragraphs : List ℕ → Result (List Text)

-- `_TextHTMLParser`
pub record TextParser : Type 0 where
  pub parts : List Text
  pub skip_depth : ℕ

-- `tag in self._SKIP`
unfoldable pub is_skipped : Text → Bool
is_skipped tag = list_beq tag (codes "script") || list_beq tag (codes "style")

abbrev pub has_content : Text → Bool
has_content s = elim (strip s) [ [] ↦ false | c ∷ rest ↦ true ]

unfoldable pub handle : HtmlEvent → TextParser → TextParser
handle (starttag tag) p = if is_skipped tag then record p { skip_depth = p.skip_depth + 1 } else p
handle (endtag tag) p =
    if is_skipped tag && ltb 0 p.skip_depth then record p { skip_depth = p.skip_depth - 1 } else p
handle (text_data content) p =
    if nat_beq p.skip_depth 0 && has_content content
    then record p { parts = p.parts ++ content ∷ [] }
    else p

unfoldable pub feed : List HtmlEvent → TextParser → TextParser
unfolding handle
feed [] p = p
feed (e ∷ es) p = feed es (handle e p)

-- What follows the last dot.
unfoldable pub after_dot : Text → Option Text
after_dot [] = none
after_dot (c ∷ s) = elim (after_dot s) [
  | some e ↦ some e
  | none ↦ if nat_beq c 46 then some s else none
]

-- The cells of a row, each with its column's name.
unfoldable pub labelled : List Text → List Text → List Text
labelled header [] = []
labelled [] (v ∷ vs) = v ∷ vs
labelled (h ∷ hs) (v ∷ vs) = (if has_content h then h ++ (codes ": " ++ v) else v) ∷ labelled hs vs

unfoldable pub csv_lines : List (List Text) → List Text
unfolding labelled join
csv_lines [] = []
csv_lines (header ∷ rows) =
    join (codes " | ") header ∷ map (λ row. join (codes " | ") (labelled header row)) rows

-- `enumerate(reader.pages, start=1)`
unfoldable pub numbered_pages : ℕ → List (Option Text) → List ExtractedPage
numbered_pages index [] = []
numbered_pages index (text ∷ rest) =
    record { text = elim text [ none ↦ [] | some t ↦ t ]; page = some index }
    ∷ numbered_pages (index + 1) rest

abbrev pub one_page : Text → List ExtractedPage
one_page text = record { text = text; page = none } ∷ []

module _ (readers : Readers) where
  unfoldable pub ext_of : Text → Text
  unfolding after_dot
  ext_of filename = elim (after_dot filename) [ none ↦ [] | some e ↦ readers.lower e ]

  unfoldable pub extract_text : List ℕ → Result (List ExtractedPage)
  extract_text bytes = ok (one_page (readers.decode_utf8 bytes))

  unfoldable pub extract_html : List ℕ → Result (List ExtractedPage)
  unfolding feed join
  extract_html bytes =
      let parser =
        feed (readers.html_events (readers.decode_utf8 bytes))
          (record { parts = []; skip_depth = 0 }) in
      ok (one_page (join (codes " ") parser.parts))

  unfoldable pub extract_csv : List ℕ → Result (List ExtractedPage)
  unfolding csv_lines join
  extract_csv bytes =
      and_then (readers.csv_rows (readers.decode_utf8_sig bytes))
        λ rows. ok (one_page (join (10 ∷ []) (csv_lines (filter (any has_content) rows))))

  unfoldable pub extract_pdf : List ℕ → Result (List ExtractedPage)
  unfolding numbered_pages
  extract_pdf bytes = and_then (readers.pdf_pages bytes) λ pages. ok (numbered_pages 1 pages)

  unfoldable pub extract_docx : List ℕ → Result (List ExtractedPage)
  unfolding join
  extract_docx bytes =
      and_then (readers.docx_paragraphs bytes)
        λ paragraphs. ok (one_page (join (10 ∷ []) paragraphs))

  abbrev pub extractors : List (Text × (List ℕ → Result (List ExtractedPage)))
  extractors =
      (codes "txt", extract_text)
      ∷ (codes "md", extract_text)
      ∷ (codes "markdown", extract_text)
      ∷ (codes "html", extract_html)
      ∷ (codes "htm", extract_html)
      ∷ (codes "csv", extract_csv)
      ∷ (codes "pdf", extract_pdf)
      ∷ (codes "docx", extract_docx)
      ∷ []

  unfoldable pub extract : Text → List ℕ → Result (List ExtractedPage)
  unfolding ext_of
  extract filename bytes = elim (Dict.lookup (ext_of filename) extractors) [
    | none ↦ err unsupported_document_type
    | some extractor ↦ extractor bytes
  ]
