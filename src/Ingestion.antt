-- ===== src/Ingestion.antt =====
-- app/services/ingestion/pipeline.py: extract, chunk, embed and index a document. The session of the
-- request, what is committed, the uploaded files and the vector store make up the world. A document
-- object is its row, found by its id. The `uuid4` of the chunk with an ordinal is a parameter, and
-- distinct from the ids in the table.
pub mod Embedded
pub mod Settled
use nexus_ai.Base.{
  ℕ, zero, suc, ◌+◌, Bool, true, false, ◌&&◌, not, Option, none, some, List, [], ◌∷◌, ◌++◌, map,
  if◌then◌else◌, any, filter, take, drop, length, nat_beq, Exec, Result, ok, err, Error,
  value_error, other_error, lift, modify, pure, ◌>>=◌, ◌>>◌, and_then, raise_if,
}
use nexus_ai.Base.Dict.{Dict}
use nexus_ai.Base.Text.{Text}
use nexus_ai.Config.{Settings}
use nexus_ai.Database.{Db, Document, DocumentStatus, Chunk, Embedding}
use nexus_ai.Providers.{EmbeddingProvider, Platform}
use nexus_ai.VectorStore.{VectorStore, VectorRecord}
use nexus_ai.Chunker.{TextChunk, chunk_pages}
use nexus_ai.Extractors.{Readers, extract}

pub record World (F S : Type 0) : Type 0 where
  pub session : Db F
  pub committed : Db F
  -- by workspace and document
  pub files : Dict (ℕ × ℕ) (List ℕ)
  pub vectors : S

-- `items[i : i + size] for i in range(0, len(items), size)`, with fuel
unfoldable pub batches_from : ℕ → ℕ → List Text → List (List Text)
batches_from zero size items = []
batches_from (suc fuel) size [] = []
batches_from (suc fuel) size (x ∷ xs) =
    take size (x ∷ xs) ∷ batches_from fuel size (drop size (x ∷ xs))

-- A step of 0 is a `ValueError` of `range`.
unfoldable pub batches : List Text → ℕ → Result (List (List Text))
unfolding batches_from
batches items zero = err value_error
batches items (suc size) = ok (batches_from (length items) (suc size) items)

unfoldable pub update_rows : ℕ → (Document → Document) → List Document → List Document
update_rows id f [] = []
update_rows id f (d ∷ ds) =
    let rest = update_rows id f ds in if nat_beq d.id id then f d ∷ rest else d ∷ rest

-- The three changes of the status.
abbrev pub started : Document → Document
started d = record d { status = DocumentStatus.processing; error = none }

abbrev pub indexed_as : ℕ → Document → Document
indexed_as n d = record d { chunk_count = n; status = DocumentStatus.indexed; error = none }

abbrev pub failed_with : Error → Document → Document
failed_with e d = record d { status = DocumentStatus.failed; error = some e; chunk_count = 0 }

unfoldable pub row_of : (ℕ → ℕ) → ℕ → TextChunk → Chunk
row_of draw document c = record {
  id = draw c.ordinal;
  document_id = document;
  ordinal = c.ordinal;
  text = c.text;
  token_count = c.token_count;
  page = c.page;
  section = c.section;
}

module _ {F : Type 0} where
  unfoldable pub with_documents : (List Document → List Document) → Db F → Db F
  with_documents f db = record db { documents = f db.documents }

  -- `delete(Chunk)`: the foreign key of the embeddings cascades.
  unfoldable pub delete_chunks : ℕ → Db F → Db F
  delete_chunks document db = record db {
    chunks = filter (λ c. not (nat_beq c.document_id document)) db.chunks;
    embeddings =
        filter
          (λ e.
            not (any (λ c. nat_beq c.id e.chunk_id && nat_beq c.document_id document) db.chunks))
          db.embeddings;
  }

  unfoldable pub add_chunks : List Chunk → Db F → Db F
  add_chunks rows db = record db { chunks = db.chunks ++ rows }

  unfoldable pub record_of : ℕ → Chunk → List F → VectorRecord F
  record_of workspace row vector = record {
    id = row.id;
    vector = vector;
    payload = record {
      workspace_id = workspace;
      document_id = row.document_id;
      chunk_id = row.id;
      ordinal = row.ordinal;
      page = row.page;
      section = row.section;
      text = row.text;
    };
  }

  -- One batch: each vector goes with the next row, `chunk_rows[offset + local]`, which is an
  -- `IndexError` behind the last. The rest of the rows is left for the next batch.
  unfoldable pub attach :
      ℕ → List Chunk → List (List F) → Result (List (VectorRecord F) × List Chunk)
  unfolding record_of
  attach workspace rows [] = ok ([], rows)
  attach workspace [] (v ∷ vs) = err (other_error 0)
  attach workspace (r ∷ rows) (v ∷ vs) =
      and_then (attach workspace rows vs) λ p. ok (record_of workspace r v ∷ p.0, p.1)

  unfoldable pub embed_batches :
      EmbeddingProvider F → ℕ → List Chunk → List (List Text) → Result (List (VectorRecord F))
  unfolding attach
  embed_batches embedder workspace rows [] = ok []
  embed_batches embedder workspace rows (b ∷ bs) = and_then (embedder.embed b) λ vectors.
      and_then (attach workspace rows vectors)
        λ p. and_then (embed_batches embedder workspace p.1 bs) λ rest. ok (p.0 ++ rest)

  unfoldable pub embedding_of : EmbeddingProvider F → VectorRecord F → Embedding
  embedding_of embedder r = record {
    chunk_id = r.id;
    vector_id = r.id;
    model = embedder.model;
    dimension = embedder.dimension;
  }

  unfoldable pub add_embeddings : EmbeddingProvider F → List (VectorRecord F) → Db F → Db F
  unfolding embedding_of
  add_embeddings embedder records db = record db {
    embeddings = db.embeddings ++ map (embedding_of embedder) records;
  }

module _ {F S : Type 0} where
  unfoldable pub commit : World F S → World F S
  commit w = record w { committed = w.session }

  unfoldable pub rollback : World F S → World F S
  rollback w = record w { session = w.committed }

  abbrev pub in_session : (Db F → Db F) → World F S → World F S
  in_session f w = record w { session = f w.session }

  abbrev pub on_vectors : {A : Type 0} → Exec S A → Exec (World F S) A
  on_vectors m w = let (r, s) = m w.vectors in (r, record w { vectors = s })

  module _ (platform : Platform) (readers : Readers) (draw : ℕ → ℕ) (settings : Settings F)
      (embedder : EmbeddingProvider F) (store : VectorStore F S) where
    -- The `try` block from the deletion of the old chunks on, without the last commit.
    unfoldable pub index_rows : ℕ → ℕ → List Chunk → Exec (World F S) (Unit {0})
    unfolding with_documents delete_chunks add_chunks embed_batches add_embeddings batches
        update_rows
    index_rows workspace document rows = do
      modify (in_session (delete_chunks document))
      on_vectors (store.delete_by_document workspace document)
      modify (in_session (add_chunks rows))
      on_vectors (store.ensure_ready embedder.dimension)
      texts ← lift (batches (map (λ r. r.text) rows) settings.embedding_batch_size)
      records ← lift (embed_batches embedder workspace rows texts)
      modify (in_session (add_embeddings embedder records))
      on_vectors (store.upsert records)
      modify (in_session (with_documents (update_rows document (indexed_as (length rows)))))

    -- The chunks of the document, or what the `try` block raises before it changes anything.
    unfoldable pub prepare : Text → List ℕ → Result (List TextChunk)
    prepare filename bytes = and_then (extract readers filename bytes) λ pages.
        and_then (chunk_pages platform.headings pages settings.chunk_size settings.chunk_overlap)
          λ chunks. elim chunks [ [] ↦ err value_error | c ∷ cs ↦ ok (c ∷ cs) ]

    unfoldable pub attempt : ℕ → ℕ → Text → List ℕ → Exec (World F S) (Unit {0})
    unfolding prepare index_rows row_of
    attempt workspace document filename bytes = do
      chunks ← lift (prepare filename bytes)
      index_rows workspace document (map (row_of draw document) chunks)

    abbrev after_attempt : ℕ → Result (Unit {0}) × World F S → World F S
    after_attempt document (ok done, w) = commit w
    after_attempt document (err e, w) =
        commit (in_session (with_documents (update_rows document (failed_with e))) (rollback w))

    unfoldable pub run_ingestion : Document → List ℕ → World F S → World F S
    unfolding attempt commit rollback with_documents update_rows
    run_ingestion document bytes w =
        let w1 = commit (in_session (with_documents (update_rows document.id started)) w) in
        after_attempt document.id
          (attempt document.workspace_id document.id document.filename bytes w1)
