-- ===== src/Ingestion/Settled.antt =====
-- How a run of the ingestion ends.
use nexus_ai.Base.{
  ℕ, ◌≤◌, ◌≡◌, refl, ap, All, List, [], ◌∷◌, map, length, ◌>>=◌, Exec, Result, ok, err, Error,
  Result-cases, arith, inl, inr, ◌⊎◌, lift,
}
use nexus_ai.Base.Text.{Text}
use nexus_ai.Config.{Settings}
use nexus_ai.Database.{Db, Document, Chunk}
use nexus_ai.Providers.{EmbeddingProvider, Platform}
use nexus_ai.VectorStore.{VectorStore, VectorRecord}
use nexus_ai.Chunker.{TextChunk, chunk_pages}
use nexus_ai.Extractors.{Readers, extract}
use nexus_ai.Ingestion.Embedded.{
  flatten, IsBatch, IsEmbedded, batches-flatten, embed_batches-IsEmbedded,
}
use nexus_ai.Ingestion.{
  World, batches, update_rows, started, indexed_as, failed_with, row_of, with_documents,
  delete_chunks, add_chunks, add_embeddings, embed_batches, commit, rollback, in_session,
  on_vectors, index_rows, prepare, attempt, run_ingestion, after_attempt,
}

-- A call from `w` leaves what is committed and the files as they are, and comes to a session with
-- `P`, or raises.
abbrev Ends : {F S : Type 0} → (Db F → Type 0) → World F S → Result (Unit {0}) × World F S → Type 0
Ends P w (r, w') =
    (w'.committed ≡ w.committed)
    × (w'.files ≡ w.files)
    × (((r ≡ ok tt) × P w'.session) ⊎ ((e : Error) × (r ≡ err e)))

Ends-map :
    {F S : Type 0} (P Q : Db F → Type 0) (w : World F S) (x : Result (Unit {0}) × World F S)
    → ((db : Db F) → P db → Q db)
    → Ends P w x
    → Ends Q w x
Ends-map P Q w (r, w') f (same, files, inl (done, p)) = (same, files, inl (done, f w'.session p))
Ends-map P Q w (r, w') f (same, files, inr raised) = (same, files, inr raised)

module _ {F S A : Type 0} (P : Db F → Type 0) (w : World F S)
    (k : A → Exec (World F S) (Unit {0})) where
  then-lift : (r : Result A) → ((a : A) → r ≡ ok a → Ends P w (k a w)) → Ends P w ((lift r >>= k) w)
  then-lift (ok a) h = h a refl
  then-lift (err e) h = (refl, refl, inr (e, refl))

  then_store :
      (r : Result A) (s : S)
      → ((a : A) → Ends P w (k a (record w { vectors = s })))
      → Ends P w (((λ v. (r, record w { vectors = s })) >>= k) w)
  then_store (ok a) s h = h a
  then_store (err e) s h = (refl, refl, inr (e, refl))

  then-on_vectors :
      (m : Exec S A)
      → ((a : A) (s : S) → Ends P w (k a (record w { vectors = s })))
      → Ends P w ((on_vectors m >>= k) w)
  then-on_vectors m h = then_store (m w.vectors).0 (m w.vectors).1 (λ a. h a (m w.vectors).1)

module _ {F S : Type 0} (platform : Platform) (readers : Readers) (draw : ℕ → ℕ)
    (settings : Settings F) (embedder : EmbeddingProvider F) (store : VectorStore F S) where
  -- The session once the rows are indexed: the old chunks of the document are replaced by `rows`,
  -- each record has an embedding, and the document counts the rows.
  abbrev pub indexed_db : ℕ → List Chunk → List (VectorRecord F) → Db F → Db F
  indexed_db document rows records db =
      with_documents (update_rows document (indexed_as (length rows)))
        (add_embeddings embedder records (add_chunks rows (delete_chunks document db)))

  -- The texts of the rows went to the embedder in batches of at most the batch size, in order, and
  -- the records are the rows with the vectors of its answers, in order.
  abbrev pub IsRecorded : ℕ → List Chunk → List (VectorRecord F) → Type 0
  IsRecorded workspace rows records =
      (texts : List (List Text)) × (flatten texts ≡ map (λ r. r.text) rows)
      × All (IsBatch settings.embedding_batch_size) texts
      × IsEmbedded workspace embedder rows texts records

  abbrev IsRowed : ℕ → ℕ → List Chunk → Db F → Db F → Type 0
  IsRowed workspace document rows before db =
      (records : List (VectorRecord F)) × IsRecorded workspace rows records
      × (db ≡ indexed_db document rows records before)

  index_rows-Ends :
      (workspace document : ℕ) (rows : List Chunk) (w : World F S)
      → Ends
          (IsRowed workspace document rows w.session)
          w
          (index_rows platform readers draw settings embedder store workspace document rows w)
  unfolding index_rows
  index_rows-Ends workspace document rows w =
      let P = IsRowed workspace document rows w.session in
      then-on_vectors P _ _ (store.delete_by_document workspace document) λ u s.
        then-on_vectors P _ _ (store.ensure_ready embedder.dimension) λ u s'.
          then-lift P _ _ (batches (map (λ r. r.text) rows) settings.embedding_batch_size)
            λ texts is.
              then-lift P _ _ (embed_batches embedder workspace rows texts) λ records made.
                let (whole, few) = batches-flatten _ settings.embedding_batch_size texts is in
                let embedded =
                  embed_batches-IsEmbedded workspace embedder rows texts records made in
                then-on_vectors P _ _ (store.upsert records)
                  λ u s''. (refl, refl, inl (refl, (records, (texts, whole, few, embedded), refl)))

  -- The session with the document in the state `processing`.
  abbrev pub started_db : Document → World F S → Db F
  started_db document w = with_documents (update_rows document.id started) w.session

  -- The two ends of a run from `w`, on a document with these bytes.
  abbrev pub IsIndexed : Document → List ℕ → World F S → Db F → Type 0
  IsIndexed document bytes w db =
      (chunks : List TextChunk) × (records : List (VectorRecord F)) × (prepare platform readers draw
          settings embedder store document.filename bytes
        ≡ ok chunks)
      × (1 ≤ length chunks)
      × IsRecorded document.workspace_id (map (row_of draw document.id) chunks) records
      × (db
          ≡ indexed_db document.id (map (row_of draw document.id) chunks) records
              (started_db document w))

  -- With what the run raised.
  abbrev pub IsFailed : Result (Unit {0}) → Document → World F S → Db F → Type 0
  IsFailed outcome document w db =
      (e : Error) × (outcome ≡ err e)
      × (db ≡ with_documents (update_rows document.id (failed_with e)) (started_db document w))

  prepare-some :
      (filename : Text) (bytes : List ℕ) (chunks : List TextChunk)
      → prepare platform readers draw settings embedder store filename bytes ≡ ok chunks
      → 1 ≤ length chunks
  unfolding prepare
  prepare-some filename bytes chunks h = elim (Result-cases (extract readers filename bytes)) [
    | inr (e, bad) ↦ absurd (ground arith)
    | inl (pages, e) ↦
        elim (Result-cases
          (chunk_pages platform.headings pages settings.chunk_size settings.chunk_overlap)) [
            | inr (e', bad) ↦ absurd (ground arith)
            | inl ([], e') ↦ absurd (ground arith)
            | inl (c ∷ cs, e') ↦ ground arith
          ]
  ]

  attempt-Ends :
      (document : Document) (bytes : List ℕ) (w : World F S)
      → Ends (IsIndexed document bytes w) (commit (in_session (λ db. started_db document w) w)) (
          attempt platform readers draw settings embedder store document.workspace_id document.id
            document.filename bytes
            (commit (in_session (λ db. started_db document w) w)))
  unfolding attempt commit
  attempt-Ends document bytes w =
      let w1 = commit (in_session (λ db. started_db document w) w) in
      then-lift (IsIndexed document bytes w) w1 _
        (prepare platform readers draw settings embedder store document.filename bytes)
        λ chunks is.
          let rows = map (row_of draw document.id) chunks in
          let P = IsRowed document.workspace_id document.id rows w1.session in
          Ends-map P (IsIndexed document bytes w) w1
            (index_rows platform readers draw settings embedder store document.workspace_id
              document.id rows w1)
            (λ db found.
              let (records, recorded, e) = found in
              (chunks, records, is, prepare-some document.filename bytes chunks is, recorded, e))
            (index_rows-Ends document.workspace_id document.id rows w1)

  settle :
      (document : Document) (bytes : List ℕ) (w : World F S) (x : Result (Unit {0}) × World F S)
      → Ends (IsIndexed document bytes w) (commit (in_session (λ db. started_db document w) w)) x
      → let w' = after_attempt platform readers draw settings embedder store document.id x in
        (w'.committed ≡ w'.session)
        × (w'.files ≡ w.files)
        × (IsIndexed document bytes w w'.session ⊎ IsFailed x.0 document w w'.session)
  unfolding commit rollback
  settle document bytes w (ok done, w') (same, files, inl (is, p)) = (refl, files, inl p)
  settle document bytes w (ok done, w') (same, files, inr (e, bad)) = absurd (ground arith)
  settle document bytes w (err e, w') (same, files, inl (bad, p)) = absurd (ground arith)
  settle document bytes w (err e, w') (same, files, inr (e', is)) = (
    refl,
    files,
    inr (e, refl, ap (with_documents (update_rows document.id (failed_with e))) same),
  )

  -- What the `try` block of the run returns or raises.
  abbrev pub outcome_of : Document → List ℕ → World F S → Result (Unit {0})
  outcome_of document bytes w =
      (attempt platform readers draw settings embedder store document.workspace_id document.id
        document.filename bytes (commit (in_session (λ db. started_db document w) w))).0

  pub run_ingestion-settles :
      (document : Document) (bytes : List ℕ) (w : World F S)
      → let w' = run_ingestion platform readers draw settings embedder store document bytes w in
        (w'.committed ≡ w'.session)
        × (w'.files ≡ w.files)
        × (IsIndexed document bytes w w'.session
            ⊎ IsFailed (outcome_of document bytes w) document w w'.session)
  unfolding run_ingestion
  run_ingestion-settles document bytes w = settle document bytes w _ (attempt-Ends document bytes w)
