-- ===== src/Routes/Files.antt =====
-- app/api/v1/documents.py.
use nexus_ai.Base.{ℕ, Option, List, if◌then◌else◌, ltb, nat_beq, length, Exec, err, http_exception}
use nexus_ai.Base.Text.{Text, codes}
use nexus_ai.Config.{Settings}
use nexus_ai.Database.{User, Document}
use nexus_ai.Providers.{EmbeddingProvider, Platform}
use nexus_ai.VectorStore.{VectorStore}
use nexus_ai.Extractors.{Readers}
use nexus_ai.Fetcher
use nexus_ai.Fetcher.{Network, or_default}
use nexus_ai.Documents
use nexus_ai.Process.{Process, on_world}
use nexus_ai.Routes.{or_not_found, or_bad_request, outcome_by}

module _ {F S : Type 0} where
  unfoldable pub list_documents_route : ℕ → User → Exec (Process F S) (List Document)
  unfolding Documents.list_for_workspace
  list_documents_route workspace user p =
      (or_not_found (Documents.list_for_workspace p.world.session workspace user.id), p)

  -- Also the route of the status, which shows fewer columns of the row.
  unfoldable pub get_document_route : ℕ → ℕ → User → Exec (Process F S) Document
  unfolding Documents.get_for_user
  get_document_route workspace document user p =
      (or_not_found (Documents.get_for_user p.world.session workspace document user.id), p)

module _ {F S : Type 0} (platform : Platform) (readers : Readers) (draw : ℕ → ℕ)
    (settings : Settings F) (embedder : EmbeddingProvider F) (store : VectorStore F S)
    (network : Network F) where
  unfoldable pub upload_document : ℕ → ℕ → Text → Text → List ℕ → User → Exec (Process F S) ℕ
  unfolding Documents.create_document
  upload_document new_id workspace filename content_type bytes user p =
      if nat_beq (length bytes) 0
      then (err (http_exception 400), p)
      else if ltb settings.max_upload_bytes (length bytes)
      then (err (http_exception 413), p)
      else outcome_by or_not_found
          (on_world (
            Documents.create_document platform readers draw settings embedder store new_id workspace
              user.id (or_default filename (codes "upload"))
              (or_default content_type (codes "application/octet-stream")) bytes))
          p

  unfoldable pub ingest_from_url : ℕ → ℕ → Text → Option Text → User → Exec (Process F S) ℕ
  unfolding Fetcher.create_document_from_url
  ingest_from_url new_id workspace url filename user = outcome_by or_bad_request (
      outcome_by or_not_found (
        on_world (
          Fetcher.create_document_from_url platform readers draw settings embedder store network
            new_id workspace user.id url filename)))

  unfoldable pub delete_document_route : ℕ → ℕ → ℕ → User → Exec (Process F S) (Unit {0})
  unfolding Documents.delete_document
  delete_document_route now workspace document user = outcome_by or_not_found (
      on_world (
        Documents.delete_document platform readers draw settings embedder store now workspace
          document user.id))

  unfoldable pub reprocess_document_route : ℕ → ℕ → User → Exec (Process F S) ℕ
  unfolding Documents.reprocess_document
  reprocess_document_route workspace document user = outcome_by or_not_found (
      on_world (
        Documents.reprocess_document platform readers draw settings embedder store workspace
          document user.id))
