-- ===== src/Tests/Lifecycle.antt =====
-- The life of a document in the workspace 1 of the user 10, with the in-memory store.
use nexus_ai.Base.{
  Error, ℕ, ◌+◌, ◌≡◌, ◌≢◌, ◌⊎◌, refl, none, [], ◌∷◌, map, All, ok, err, not_found_error,
  integrity_error, list_beq, nat_eq, pair_eq,
}
use nexus_ai.Base.Float.{whole}
use nexus_ai.Base.Text.{Text, codes, is_space}
use nexus_ai.Config.{Settings, defaults}
use nexus_ai.Database.{Db, no_rows, Document, DocumentStatus, owner}
use nexus_ai.Providers.{Platform, EmbeddingProvider}
use nexus_ai.VectorStore.Memory.{Records, memory_store}
use nexus_ai.Extractors.{Readers}
use nexus_ai.Workspaces.{get_membership}
use nexus_ai.Retrieval.{RetrievalResult}
use nexus_ai.Retrieval.Whole.{retrieve}
use nexus_ai.Fetcher.{Network, FetchedDocument, response, fetch_url, create_document_from_url}
use nexus_ai.Fetcher.Names.{IsFetched, create_document_from_url-checked}
use nexus_ai.Ingestion.{rollback, World}
use nexus_ai.Documents.{
  create_document, delete_document, get_document, get_for_user, get_by_checksum, require_membership,
  new_document,
}
use nexus_ai.Documents.Deletion.{delete_document-forgotten}
use nexus_ai.Documents.Creation.{create_document-idempotent, create_document-after_delete}

abbrev plain : Platform
plain = record {
  lower = λ s. s;
  ilike = λ s t. list_beq s t;
  headings = λ s. [];
  sha256_hex = λ s. s;
}

abbrev pub readers : Readers
readers = record {
  lower = λ s. s;
  decode_utf8 = λ s. s;
  decode_utf8_sig = λ s. s;
  html_events = λ s. [];
  csv_rows = λ s. ok [];
  pdf_pages = λ s. ok [];
  docx_paragraphs = λ s. ok [];
}

abbrev embedder : EmbeddingProvider ℕ
embedder = record {
  model = codes "unit";
  dimension = 1;
  embed = λ texts. ok (map (λ t. 1 ∷ []) texts);
}

abbrev pub draw : ℕ → ℕ
draw ordinal = ordinal + 100

abbrev config : Settings ℕ
config = defaults 0 0 1 15

abbrev note : Document
note = record {
  id = 7;
  workspace_id = 1;
  filename = codes "note.txt";
  mime_type = codes "text/plain";
  size_bytes = 5;
  checksum = codes "hello";
  status = DocumentStatus.queued;
  error = none;
  chunk_count = 0;
  deleted_at = none;
}

abbrev rows : Db ℕ
rows = record (no_rows {F = ℕ}) {
  memberships = record { user_id = 10; workspace_id = 1; role = owner } ∷ [];
  documents = note ∷ [];
}

abbrev world : World ℕ (Records ℕ)
world = record { session = rows; committed = rows; files = []; vectors = [] }

delete-note :
    (delete_document plain readers draw config embedder (memory_store whole) 50 1 7 10 world).0
    ≡ ok tt
unfolding delete_document get_for_user require_membership get_membership get_document memory_store
delete-note = refl

delete_document-forgotten_example :
    let w' =
      (delete_document plain readers draw config embedder (memory_store whole) 50 1 7 10 world).1 in
    (w'.committed ≡ w'.session)
    × ((other reader : ℕ) → get_for_user w'.session other 7 reader ≡ err not_found_error)
    × ((round6 : ℕ → ℕ) (embedder' : EmbeddingProvider ℕ) (settings' : Settings ℕ) (query : Text)
          (result : RetrievalResult ℕ) (s : Records ℕ)
        → retrieve whole plain round6 embedder'
            (memory_store whole)
            settings'
            w'.session
            1
            query
            w'.vectors
          ≡ (ok result, s)
        → All (λ c. c.document_id ≢ 7) result.citations)
delete_document-forgotten_example =
    delete_document-forgotten whole plain readers draw config embedder 50 1 7 10 world delete-note

abbrev other_text : Text
other_text = codes "other"

create-other :
    (create_document plain readers draw config embedder
      (memory_store whole)
      8
      1
      10
      (codes "a.txt")
      (codes "text/plain")
      other_text
      world).0
    ≡ ok 8
unfolding create_document require_membership get_membership get_by_checksum new_document
create-other = refl

create_document-idempotent_example :
    let w' =
      (create_document plain readers draw config embedder
        (memory_store whole)
        8
        1
        10
        (codes "a.txt")
        (codes "text/plain")
        other_text
        world).1 in
    create_document plain readers draw config embedder
      (memory_store whole)
      9
      1
      10
      (codes "b.txt")
      (codes "text/plain")
      other_text
      w'
    ≡ (ok 8, w')
create_document-idempotent_example =
    create_document-idempotent plain readers draw config embedder (memory_store whole) 8 1 10 8
      (codes "a.txt") (codes "text/plain") other_text world create-other 9 (codes "b.txt")
      (codes "text/plain")

shown : get_for_user rows 1 7 10 ≡ ok note
unfolding get_for_user require_membership get_membership get_document
shown = refl

checksum-free :
    get_by_checksum
      (delete_document plain readers draw config embedder
        (memory_store whole)
        50
        1
        7
        10
        world).1.session
      1
      (codes "hello")
    ≡ none
unfolding delete_document get_by_checksum get_for_user require_membership get_membership
    get_document memory_store
checksum-free = refl

create_document-after_delete_example :
    (create_document plain readers draw config embedder
      (memory_store whole)
      8
      1
      10
      (codes "a.txt")
      (codes "text/plain")
      (codes "hello")
      (delete_document plain readers draw config embedder (memory_store whole) 50 1 7 10 world).1).0
    ≡ err integrity_error
create_document-after_delete_example =
    create_document-after_delete plain readers draw config embedder (memory_store whole) 50 1 7 10
      world note (codes "hello") shown refl delete-note checksum-free 8 (codes "a.txt")
      (codes "text/plain")

-- A network with one web page.
abbrev pub network : Network ℕ
network = record {
  urlparse =
      λ url. ok (record { scheme = codes "https"; netloc = codes "example.org"; path = url });
  basename = λ path. path;
  unquote = λ s. s;
  get = λ timeout url.
      response (record { content_type = codes "text/html; charset=utf-8"; content = 60 ∷ [] });
}

fetched_page :
    fetch_url readers network (codes "about.us") 15 10 none
    ≡ ok (record {
      filename = codes "about.html";
      content_type = codes "text/html; charset=utf-8";
      content = 60 ∷ [];
    })
unfolding fetch_url is_space
fetched_page = refl

create_document_from_url-checked_example :
    let r =
      create_document_from_url plain readers draw config embedder
        (memory_store whole)
        network
        8
        1
        10
        (codes "about.us")
        none
        world in
    let fetched =
      fetch_url readers network
        (codes "about.us")
        config.url_fetch_timeout_seconds
        config.max_upload_bytes
        none in
    ((e : Error) × (require_membership world.session 1 10 ≡ err e) × (r ≡ (err e, rollback world)))
    ⊎ ((e : Error) × (require_membership world.session 1 10 ≡ ok tt)
        × (fetched ≡ err e)
        × (r ≡ (err e, rollback world)))
    ⊎ ((d : FetchedDocument) × (require_membership world.session 1 10 ≡ ok tt)
        × (fetched ≡ ok d)
        × IsFetched readers network (codes "about.us") config.max_upload_bytes d
        × (r
            ≡ create_document plain readers draw config embedder
                (memory_store whole)
                8
                1
                10
                d.filename
                d.content_type
                d.content
                world))
create_document_from_url-checked_example =
    create_document_from_url-checked plain readers draw config embedder (memory_store whole) network
      8 1 10 (codes "about.us") none world
      (refl, (refl, (refl, (refl, (refl, (refl, (refl, (refl, tt))))))))
