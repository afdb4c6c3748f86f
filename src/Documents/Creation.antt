-- ===== src/Documents/Creation.antt =====
-- Creating a document twice, and creating one again that was deleted.
use nexus_ai.Base.{
  ℕ, ◌≡◌, refl, ap, sym, ◌∙◌, true, ◌&&◌, not, Option, none, some, List, [], ◌∷◌, ◌++◌, any, find?,
  is_some, nat_beq, list_beq_iff, nat_eq, list_eq, pair_eq, Result, ok, err, integrity_error,
  not_found_error, Result-cases, Option-cases, Bool-cases, inl, inr, arith,
}
use nexus_ai.Base.Dict
use nexus_ai.Base.Text.{Text}
use nexus_ai.Config.{Settings}
use nexus_ai.Database.{Db, Document}
use nexus_ai.Providers.{EmbeddingProvider, Platform}
use nexus_ai.VectorStore.{VectorStore}
use nexus_ai.Extractors.{Readers}
use nexus_ai.Workspaces.{get_membership, is_membership}
use nexus_ai.Ingestion.{
  World, update_rows, started, with_documents, delete_chunks, add_chunks, add_embeddings, commit,
  in_session, run_ingestion,
}
use nexus_ai.Ingestion.Settled.{run_ingestion-settles}
use nexus_ai.Documents.Access.{get_for_user-exact}
use nexus_ai.Documents.{
  has_checksum, require_membership, get_by_checksum, add_document, new_document, insert_document,
  create_document, delete_document, deleted_at_time, get_for_user, get_document,
}

abbrev rows_id : ℕ → Text → List Document → Option ℕ
rows_id workspace checksum ds =
    elim (find? (λ d. has_checksum workspace checksum d && not (is_some d.deleted_at)) ds) [
      | none ↦ none
      | some d ↦ some d.id
    ]

-- The update changes no column that `_get_by_checksum` reads, and no id.
abbrev IsMinor : (Document → Document) → Type 0
IsMinor f =
    (d : Document)
    → ((f d).id ≡ d.id)
      × ((f d).workspace_id ≡ d.workspace_id)
      × ((f d).checksum ≡ d.checksum)
      × ((f d).deleted_at ≡ d.deleted_at)

rows_id-update_rows :
    (id : ℕ) (f : Document → Document) (workspace : ℕ) (checksum : Text) (ds : List Document)
    → IsMinor f
    → rows_id workspace checksum (update_rows id f ds) ≡ rows_id workspace checksum ds
unfolding update_rows
rows_id-update_rows id f workspace checksum [] minor = refl
rows_id-update_rows id f workspace checksum (d ∷ ds) minor =
    let (a, b, c, e) = minor d in
    ground (arith, a, b, c, e, rows_id-update_rows id f workspace checksum ds minor)

-- The memberships are the same, and each checksum finds the same document.
abbrev Keeps : {F : Type 0} → Db F → Db F → Type 0
Keeps db db' =
    (db'.memberships ≡ db.memberships)
    × ((workspace : ℕ) (checksum : Text)
        → rows_id workspace checksum db'.documents ≡ rows_id workspace checksum db.documents)

module _ {F S : Type 0} (platform : Platform) (readers : Readers) (draw : ℕ → ℕ)
    (settings : Settings F) (embedder : EmbeddingProvider F) (store : VectorStore F S) where
  run_ingestion-Keeps :
      (d : Document) (bytes : List ℕ) (w : World F S)
      → Keeps w.session
          (run_ingestion platform readers draw settings embedder store d bytes w).session
  unfolding with_documents add_embeddings add_chunks delete_chunks
  run_ingestion-Keeps d bytes w =
      let ends =
        (run_ingestion-settles platform readers draw settings embedder store d bytes w).2 in
      let begun = λ (ws : ℕ) (cs : Text).
        rows_id-update_rows d.id started ws cs w.session.documents
          (λ x. (refl, refl, refl, refl)) in
      elim ends [
        | inl (chunks, records, is, some_chunk, recorded, e) ↦ simp e (
          refl,
          λ ws cs. rows_id-update_rows d.id _ ws cs _ (λ x. (refl, refl, refl, refl)) ∙ begun ws cs,
        )
        | inr (raised, is, e) ↦ simp e (
          refl,
          λ ws cs. rows_id-update_rows d.id _ ws cs _ (λ x. (refl, refl, refl, refl)) ∙ begun ws cs,
        )
      ]

  insert_document-Keeps :
      (d : Document) (bytes : List ℕ) (w : World F S)
      → Keeps
          (add_document d w.session)
          (insert_document platform readers draw settings embedder store d bytes w).session
  unfolding insert_document commit
  insert_document-Keeps d bytes w = elim (Bool-cases settings.ingest_eager) [
    | inl eager ↦
        let w1 = commit (in_session (add_document d) w) in
        simp eager (
          run_ingestion-Keeps d bytes
            (record w1 { files = Dict.insert (d.workspace_id, d.id) bytes w1.files }))
    | inr later ↦ simp later (refl, λ ws cs. refl)
  ]

  rows_id-append :
      (workspace : ℕ) (checksum : Text) (d : Document) (ds : List Document)
      → rows_id workspace checksum ds ≡ none
      → has_checksum workspace checksum d ≡ true
      → d.deleted_at ≡ none
      → rows_id workspace checksum (ds ++ d ∷ []) ≡ some d.id
  rows_id-append workspace checksum d [] h same live = ground arith
  rows_id-append workspace checksum d (x ∷ ds) h same live =
      ground (arith, rows_id-append workspace checksum d ds)

  create_document-known :
      (new_id workspace user id : ℕ) (filename mime_type : Text) (bytes : List ℕ) (w : World F S)
      → require_membership w.session workspace user ≡ ok tt
      → rows_id workspace (platform.sha256_hex bytes) w.session.documents ≡ some id
      → create_document platform readers draw settings embedder store new_id workspace user filename
          mime_type bytes w
        ≡ (ok id, w)
  unfolding create_document get_by_checksum new_document
  create_document-known new_id workspace user id filename mime_type bytes w may found =
      elim (Option-cases (get_by_checksum w.session workspace (platform.sha256_hex bytes))) [
        | inl no_row ↦ absurd (ground arith)
        | inr (d, e) ↦ ground arith
      ]

  inserted_membership :
      (d : Document) (bytes : List ℕ) (w : World F S) (workspace user : ℕ)
      → require_membership
          (insert_document platform readers draw settings embedder store d bytes w).session
          workspace
          user
        ≡ require_membership w.session workspace user
  unfolding require_membership get_membership add_document
  inserted_membership d bytes w workspace user =
      ap
        (λ ms. elim (find? (is_membership workspace user) ms) as (λ m. Result (Unit {0})) [
          | none ↦ err not_found_error
          | some m ↦ ok tt
        ])
        (insert_document-Keeps d bytes w).0

  inserted_id :
      (new_id workspace : ℕ) (filename mime_type : Text) (bytes : List ℕ) (w : World F S)
      → get_by_checksum w.session workspace (platform.sha256_hex bytes) ≡ none
      → rows_id workspace
          (platform.sha256_hex bytes)
          (insert_document platform readers draw settings embedder store
            (new_document platform new_id workspace filename mime_type bytes)
            bytes
            w).session.documents
        ≡ some new_id
  unfolding get_by_checksum add_document new_document
  inserted_id new_id workspace filename mime_type bytes w no_row =
      let d = new_document platform new_id workspace filename mime_type bytes in
      (insert_document-Keeps d bytes w).1 workspace (platform.sha256_hex bytes)
      ∙ rows_id-append workspace (platform.sha256_hex bytes) d w.session.documents (ground arith)
          (ground (arith, list_beq_iff (platform.sha256_hex bytes) (platform.sha256_hex bytes)))
          refl

  -- Creating a document is idempotent: once a call has returned a document, eager ingestion
  -- included and however that ended, another call with the same bytes by the same user in the same
  -- workspace returns the same document, under any name, and changes nothing.
  pub create_document-idempotent :
      (new_id workspace user id : ℕ) (filename mime_type : Text) (bytes : List ℕ) (w : World F S)
      → let (r, w') =
          create_document platform readers draw settings embedder store new_id workspace user
            filename mime_type bytes w in
        r ≡ ok id
        → (again : ℕ) (filename' mime_type' : Text)
        → create_document platform readers draw settings embedder store again workspace user
            filename' mime_type' bytes w'
          ≡ (ok id, w')
  create_document-idempotent new_id workspace user id filename mime_type bytes w h again filename'
        mime_type' =
      let d = new_document platform new_id workspace filename mime_type bytes in
      let created =
        create_document platform readers draw settings embedder store new_id workspace user filename
          mime_type bytes w in
      elim (Result-cases (require_membership w.session workspace user)) [
        | inr (e, bad) ↦ absurd (unfold create_document in ground arith)
        | inl (u, may) ↦
            elim (Option-cases (get_by_checksum w.session workspace (platform.sha256_hex bytes))) [
              | inr (row, found) ↦
                  let start : created ≡ (ok id, w) =
                    unfold create_document new_document in ground arith in
                  let held : rows_id workspace (platform.sha256_hex bytes) w.session.documents
                      ≡ some id =
                    unfold create_document new_document get_by_checksum in ground arith in
                  simp start (
                    create_document-known again workspace user id filename' mime_type' bytes w may
                      held)
              | inl no_row ↦
                  let start : created ≡ (
                    ok id,
                    insert_document platform readers draw settings embedder store d bytes w,
                  ) =
                    unfold create_document new_document in ground arith in
                  let same : id ≡ new_id = unfold create_document new_document in ground arith in
                  simp start (
                    create_document-known again workspace user id filename' mime_type' bytes _
                      (inserted_membership d bytes w workspace user ∙ may)
                      (inserted_id new_id workspace filename mime_type bytes w no_row
                        ∙ ap some (sym same)))
            ]
      ]

any-deleted :
    (now id workspace : ℕ) (checksum : Text) (ds : List Document) (d : Document)
    → find? (λ x. nat_beq x.id id) ds ≡ some d
    → has_checksum workspace checksum d ≡ true
    → any (has_checksum workspace checksum) (update_rows id (deleted_at_time now) ds) ≡ true
unfolding update_rows
any-deleted now id workspace checksum [] d h same = ground arith
any-deleted now id workspace checksum (x ∷ ds) d h same =
    ground (arith, any-deleted now id workspace checksum ds d)

module _ {F S : Type 0} (platform : Platform) (readers : Readers) (draw : ℕ → ℕ)
    (settings : Settings F) (embedder : EmbeddingProvider F) (store : VectorStore F S) where
  delete_document-session :
      (now workspace document user : ℕ) (w : World F S) (d : Document)
      → get_for_user w.session workspace document user ≡ ok d
      → let (r, w') =
          delete_document platform readers draw settings embedder store now workspace document user
            w in
        r ≡ ok tt
        → w'.session ≡ with_documents (update_rows document (deleted_at_time now)) w.session
  unfolding delete_document
  delete_document-session now workspace document user w d shown h =
      elim (Result-cases ((store.delete_by_document workspace document w.vectors).0)) [
        | inr (e, bad) ↦ absurd (ground arith)
        | inl (u, done) ↦ ground arith
      ]

  create_document-blocked :
      (new_id workspace user : ℕ) (filename mime_type : Text) (bytes : List ℕ) (w : World F S)
      → require_membership w.session workspace user ≡ ok tt
      → get_by_checksum w.session workspace (platform.sha256_hex bytes) ≡ none
      → any (has_checksum workspace (platform.sha256_hex bytes)) w.session.documents ≡ true
      → (create_document platform readers draw settings embedder store new_id workspace user
          filename mime_type bytes w).0
        ≡ err integrity_error
  unfolding create_document new_document
  create_document-blocked new_id workspace user filename mime_type bytes w may free taken =
      ground arith

  -- A deleted document blocks its content: once `delete_document` has succeeded, and unless another
  -- live document of the workspace has the same checksum, each attempt of the user to create a
  -- document with the same bytes fails on the unique constraint, which sees deleted rows too.
  pub create_document-after_delete :
      (now workspace document user : ℕ) (w : World F S) (d : Document) (bytes : List ℕ)
      → get_for_user w.session workspace document user ≡ ok d
      → platform.sha256_hex bytes ≡ d.checksum
      → let (r, w') =
          delete_document platform readers draw settings embedder store now workspace document user
            w in
        r ≡ ok tt
        → get_by_checksum w'.session workspace d.checksum ≡ none
        → (new_id : ℕ) (filename mime_type : Text)
        → (create_document platform readers draw settings embedder store new_id workspace user
            filename mime_type bytes w').0
          ≡ err integrity_error
  create_document-after_delete now workspace document user w d bytes shown same h free new_id
        filename mime_type =
      let w' =
        (delete_document platform readers draw settings embedder store now workspace document user
          w).1 in
      let e = delete_document-session now workspace document user w d shown h in
      let (m, member, row, live, here) =
        (get_for_user-exact w.session workspace document user d).0 shown in
      create_document-blocked new_id workspace user filename mime_type bytes w'
        (simp e (unfold require_membership get_membership with_documents in ground arith))
        (simp same free)
        (simp (e, same)
          (unfold with_documents get_document in
            any-deleted now document workspace d.checksum w.session.documents d row
              (ground (arith, list_beq_iff d.checksum d.checksum))))
