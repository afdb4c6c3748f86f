-- ===== src/Documents.antt =====
-- app/services/document_service.py and app/workers/tasks.py: the life of a document. A service call
-- that returns a document returns its id. A call that raises has the session rolled back.
pub mod Access
pub mod Deletion
pub mod Creation
use nexus_ai.Base.{
  ℕ, Bool, true, false, ◌&&◌, ◌||◌, not, Option, none, some, List, [], ◌∷◌, ◌++◌, reverse,
  if◌then◌else◌, find?, filter, any, length, is_some, nat_beq, list_beq, nat_eq, pair_eq, Exec,
  Result, ok, err, not_found_error, integrity_error, other_error, and_then,
}
use nexus_ai.Base.Dict
use nexus_ai.Base.Text.{Text}
use nexus_ai.Config.{Settings}
use nexus_ai.Database.{Db, Document, DocumentStatus}
use nexus_ai.Providers.{EmbeddingProvider, Platform}
use nexus_ai.VectorStore.{VectorStore}
use nexus_ai.Extractors.{Readers}
use nexus_ai.Workspaces.{get_membership}
use nexus_ai.Ingestion.{
  World, update_rows, with_documents, commit, rollback, in_session, on_vectors, run_ingestion,
}

-- The row has the checksum in the workspace, deleted or not: what the unique constraint compares.
abbrev pub has_checksum : ℕ → Text → Document → Bool
has_checksum workspace checksum d = nat_beq d.workspace_id workspace && list_beq d.checksum checksum

abbrev pub deleted_at_time : ℕ → Document → Document
deleted_at_time now d = record d { deleted_at = some now }

-- `Document(…)` with its defaults, for a new `uuid4`.
unfoldable pub new_document : Platform → ℕ → ℕ → Text → Text → List ℕ → Document
new_document platform new_id workspace filename mime_type bytes = record {
  id = new_id;
  workspace_id = workspace;
  filename = filename;
  mime_type = mime_type;
  size_bytes = length bytes;
  checksum = platform.sha256_hex bytes;
  status = DocumentStatus.queued;
  error = none;
  chunk_count = 0;
  deleted_at = none;
}

module _ {F : Type 0} where
  unfoldable pub require_membership : Db F → ℕ → ℕ → Result (Unit {0})
  require_membership db workspace user = elim (get_membership db workspace user) [
    | none ↦ err not_found_error
    | some m ↦ ok tt
  ]

  unfoldable pub get_by_checksum : Db F → ℕ → Text → Option Document
  get_by_checksum db workspace checksum =
      find? (λ d. has_checksum workspace checksum d && not (is_some d.deleted_at)) db.documents

  -- `db.get(Document, document_id)`
  unfoldable pub get_document : Db F → ℕ → Option Document
  get_document db document = find? (λ d. nat_beq d.id document) db.documents

  unfoldable pub get_for_user : Db F → ℕ → ℕ → ℕ → Result Document
  get_for_user db workspace document user = and_then (require_membership db workspace user) λ u.
      elim (get_document db document) [
        | none ↦ err not_found_error
        | some d ↦
            if is_some d.deleted_at || not (nat_beq d.workspace_id workspace)
            then err not_found_error
            else ok d
      ]

  -- Rows are added at the end, so that the newest comes first in reverse.
  unfoldable pub list_for_workspace : Db F → ℕ → ℕ → Result (List Document)
  list_for_workspace db workspace user = and_then (require_membership db workspace user) λ u. ok (
      reverse
        (filter (λ d. nat_beq d.workspace_id workspace && not (is_some d.deleted_at)) db.documents))

  unfoldable pub add_document : Document → Db F → Db F
  add_document d db = record db { documents = db.documents ++ d ∷ [] }

module _ {F S : Type 0} (platform : Platform) (readers : Readers) (draw : ℕ → ℕ)
    (settings : Settings F) (embedder : EmbeddingProvider F) (store : VectorStore F S) where
  -- From the commit of the new row on.
  unfoldable pub insert_document : Document → List ℕ → World F S → World F S
  unfolding add_document commit
  insert_document d bytes w =
      let w1 = commit (in_session (add_document d) w) in
      let w2 = record w1 { files = Dict.insert (d.workspace_id, d.id) bytes w1.files } in
      let ingested = run_ingestion platform readers draw settings embedder store d bytes w2 in
      if settings.ingest_eager then ingested else w2

  unfoldable pub create_document : ℕ → ℕ → ℕ → Text → Text → List ℕ → Exec (World F S) ℕ
  create_document new_id workspace user filename mime_type bytes w =
      elim (require_membership w.session workspace user) [
        | err e ↦ (err e, rollback w)
        | ok u ↦
            let d = new_document platform new_id workspace filename mime_type bytes in
            elim (get_by_checksum w.session workspace d.checksum) [
              | some existing ↦ (ok existing.id, w)
              | none ↦
                  if any (has_checksum workspace d.checksum) w.session.documents
                  then (err integrity_error, rollback w)
                  else (ok new_id, insert_document d bytes w)
            ]
      ]

  abbrev finish_deletion : ℕ → ℕ → Result (Unit {0}) × World F S → Result (Unit {0}) × World F S
  finish_deletion now document (err e, w) = (err e, rollback w)
  finish_deletion now document (ok u, w) =
      (ok tt, commit (in_session (with_documents (update_rows document (deleted_at_time now))) w))

  unfoldable pub delete_document : ℕ → ℕ → ℕ → ℕ → Exec (World F S) (Unit {0})
  unfolding with_documents update_rows commit rollback
  delete_document now workspace document user w =
      elim (get_for_user w.session workspace document user) [
        | err e ↦ (err e, rollback w)
        | ok d ↦
            finish_deletion now document
              (on_vectors (store.delete_by_document workspace document) w)
      ]

  -- A file that is not there is a `FileNotFoundError`.
  unfoldable pub reprocess_document : ℕ → ℕ → ℕ → Exec (World F S) ℕ
  reprocess_document workspace document user w =
      elim (get_for_user w.session workspace document user) [
        | err e ↦ (err e, rollback w)
        | ok d ↦ elim (Dict.lookup (workspace, document) w.files) [
          | none ↦ (err (other_error 1), rollback w)
          | some bytes ↦
              (ok d.id, run_ingestion platform readers draw settings embedder store d bytes w)
        ]
      ]

  -- app/workers/tasks.py, `_ingest_document`, in a session of its own
  unfoldable pub ingest_document : ℕ → Exec (World F S) (Unit {0})
  ingest_document document w = elim (get_document w.session document) [
    | none ↦ (ok tt, w)
    | some d ↦
        if is_some d.deleted_at
        then (ok tt, w)
        else elim (Dict.lookup (d.workspace_id, document) w.files) [
          | none ↦ (err (other_error 1), rollback w)
          | some bytes ↦
              (ok tt, run_ingestion platform readers draw settings embedder store d bytes w)
        ]
  ]
