-- ===== src/Fetcher.antt =====
-- app/services/ingestion/fetcher.py, and `create_document_from_url` of
-- app/services/document_service.py. `urllib`, `posixpath` and `httpx` are parameters.
pub mod Names
use nexus_ai.Base.{
  ℕ, Bool, true, false, ◌||◌, not, Option, none, some, List, [], ◌∷◌, ◌++◌, if◌then◌else◌, length,
  is_some, ltb, nat_beq, list_beq, list_eq, nat_eq, Exec, Result, ok, err, Error, url_fetch_error,
  and_then,
}
use nexus_ai.Base.Dict
use nexus_ai.Base.Dict.{Dict}
use nexus_ai.Base.Text.{Text, codes, strip}
use nexus_ai.Config.{Settings}
use nexus_ai.Providers.{EmbeddingProvider, Platform}
use nexus_ai.VectorStore.{VectorStore}
use nexus_ai.Extractors.{Readers, ext_of, extractors}
use nexus_ai.Ingestion.{World, rollback}
use nexus_ai.Documents.{require_membership, create_document}

pub record Url : Type 0 where
  pub scheme : Text
  pub netloc : Text
  pub path : Text

pub record Response : Type 0 where
  -- the header, the empty text without one
  pub content_type : Text
  pub content : List ℕ

-- What `client.get` and `raise_for_status` come to: an `httpx.HTTPError`, or another exception.
pub data Reply : Type 0 where
  response : Response → Reply
  http_error : Reply
  raised : Error → Reply

pub record Network (F : Type 0) : Type 0 where
  pub urlparse : Text → Result Url
  pub basename : Text → Text
  pub unquote : Text → Text
  -- with the timeout, redirects followed
  pub get : F → Text → Reply

pub record FetchedDocument : Type 0 where
  pub filename : Text
  pub content_type : Text
  pub content : List ℕ

-- `_CONTENT_TYPE_EXT`
abbrev pub content_type_ext : Dict Text Text
content_type_ext =
    (codes "text/html", codes "html")
    ∷ (codes "application/xhtml+xml", codes "html")
    ∷ (codes "text/plain", codes "txt")
    ∷ (codes "text/markdown", codes "md")
    ∷ (codes "text/csv", codes "csv")
    ∷ (codes "application/csv", codes "csv")
    ∷ (codes "application/pdf", codes "pdf")
    ∷ (
      codes "application/vnd.openxmlformats-officedocument.wordprocessingml.document",
      codes "docx",
    )
    ∷ []

-- `s.split(";", 1)[0]`
unfoldable pub before_semicolon : Text → Text
before_semicolon [] = []
before_semicolon (c ∷ s) = let rest = before_semicolon s in if nat_beq c 59 then [] else c ∷ rest

-- `s.rsplit(".", 1)[0]`: what stands before the last dot, or the whole text.
unfoldable pub cut_at_dot : Text → Option Text
cut_at_dot [] = none
cut_at_dot (c ∷ s) = elim (cut_at_dot s) [
  | some front ↦ some (c ∷ front)
  | none ↦ if nat_beq c 46 then some [] else none
]

abbrev pub or_default : Text → Text → Text
or_default [] default = default
or_default (c ∷ s) default = c ∷ s

-- `base.rsplit(".", 1)[0] if base else (parsed.netloc or "download")`
abbrev pub stem_of : Text → Url → Text
stem_of [] url = or_default url.netloc (codes "download")
stem_of (c ∷ base) url = elim (cut_at_dot (c ∷ base)) [ none ↦ c ∷ base | some front ↦ front ]

module _ {F : Type 0} (readers : Readers) (network : Network F) where
  -- `_ext(name) in SUPPORTED_EXTENSIONS`
  unfoldable pub is_supported : Text → Bool
  unfolding ext_of
  is_supported filename = is_some (Dict.lookup (ext_of readers filename) (extractors readers))

  -- `content_type.split(";", 1)[0].strip().lower()`
  abbrev pub media_type : Text → Text
  media_type content_type = readers.lower (strip (before_semicolon content_type))

  -- `_resolve_filename` from the second `if` on.
  unfoldable pub name_from : Url → Text → Result Text
  unfolding is_supported Dict.lookup cut_at_dot before_semicolon strip
  name_from url content_type =
      let base = network.unquote (network.basename url.path) in
      if is_supported base
      then ok base
      else (elim (Dict.lookup (media_type content_type) content_type_ext) [
        | none ↦ err url_fetch_error
        | some mapped ↦ ok (stem_of base url ++ 46 ∷ mapped)
      ])

  unfoldable pub resolve_filename : Text → Text → Option Text → Result Text
  unfolding name_from is_supported
  resolve_filename url content_type (some (c ∷ name)) =
      if is_supported (c ∷ name) then ok (c ∷ name) else err url_fetch_error
  resolve_filename url content_type _ =
      and_then (network.urlparse url) λ parsed. name_from parsed content_type

  -- What follows the download.
  unfoldable pub accept : ℕ → Text → Option Text → Response → Result FetchedDocument
  unfolding resolve_filename
  accept max_bytes url filename answer =
      if nat_beq (length answer.content) 0 || ltb max_bytes (length answer.content)
      then err url_fetch_error
      else (and_then (resolve_filename url answer.content_type filename) λ resolved. ok (record {
        filename = resolved;
        content_type = or_default answer.content_type (codes "application/octet-stream");
        content = answer.content;
      }))

  abbrev pub receive : ℕ → Text → Option Text → Reply → Result FetchedDocument
  receive max_bytes url filename (response answer) = accept max_bytes url filename answer
  receive max_bytes url filename http_error = err url_fetch_error
  receive max_bytes url filename (raised e) = err e

  -- `scheme in _ALLOWED_SCHEMES`
  abbrev pub is_allowed : Url → Bool
  is_allowed url =
      list_beq (readers.lower url.scheme) (codes "http")
      || list_beq (readers.lower url.scheme) (codes "https")

  unfoldable pub fetch_url : Text → F → ℕ → Option Text → Result FetchedDocument
  unfolding accept
  fetch_url url timeout max_bytes filename = and_then (network.urlparse url) λ parsed.
      if is_allowed parsed
      then receive max_bytes url filename (network.get timeout url)
      else err url_fetch_error

module _ {F S : Type 0} (platform : Platform) (readers : Readers) (draw : ℕ → ℕ)
    (settings : Settings F) (embedder : EmbeddingProvider F) (store : VectorStore F S)
    (network : Network F) where
  unfoldable pub create_document_from_url : ℕ → ℕ → ℕ → Text → Option Text → Exec (World F S) ℕ
  unfolding fetch_url create_document rollback
  create_document_from_url new_id workspace user url filename w =
      elim (require_membership w.session workspace user) [
        | err e ↦ (err e, rollback w)
        | ok member ↦
            elim (fetch_url readers network url settings.url_fetch_timeout_seconds
              settings.max_upload_bytes filename) [
                | err e ↦ (err e, rollback w)
                | ok d ↦
                    create_document platform readers draw settings embedder store new_id workspace
                      user d.filename d.content_type d.content w
              ]
      ]
