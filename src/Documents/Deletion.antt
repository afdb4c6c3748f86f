-- ===== src/Documents/Deletion.antt =====
-- What is left of a deleted document, with the in-memory store: nothing that is shown or cited.
use nexus_ai.Base.{
  ℕ, ◌≡◌, ◌≢◌, refl, subst, true, false, ◌&&◌, not, some, List, [], ◌∷◌, map, any, filter, find?,
  is_some, nat_beq, nat_eq, All, All-take, All-sorted_desc, ok, err, not_found_error, Result-cases,
  Option-cases, Bool-cases, inl, inr, arith,
}
use nexus_ai.Base.Float.{FloatOps}
use nexus_ai.Base.Text.{Text}
use nexus_ai.Config.{Settings}
use nexus_ai.Database.{Document, Chunk}
use nexus_ai.Providers.{EmbeddingProvider, Platform}
use nexus_ai.VectorStore.{VectorRecord, SearchResult}
use nexus_ai.VectorStore.Memory.{
  Records, in_workspace, is_of, scored, search, by_score, delete_by_document, memory_store,
}
use nexus_ai.VectorStore.Memory.Laws.{delete_by_document-exact}
use nexus_ai.Extractors.{Readers}
use nexus_ai.Workspaces.{get_membership}
use nexus_ai.Retrieval.{RetrievalResult, is_visible}
use nexus_ai.Retrieval.Sources.{retrieve-From}
use nexus_ai.Retrieval.Whole.{retrieve}
use nexus_ai.Ingestion.{World, update_rows, with_documents, commit}
use nexus_ai.Documents.{
  require_membership, get_document, get_for_user, delete_document, deleted_at_time,
}

-- After the update, no row with the id counts as live.
not_live :
    (now id other workspace : ℕ) (ds : List Document)
    → other ≡ id
    → any
        (λ d. nat_beq d.id other && nat_beq d.workspace_id workspace && not (is_some d.deleted_at))
        (update_rows id (deleted_at_time now) ds)
      ≡ false
unfolding update_rows
not_live now id other workspace [] e = refl
not_live now id other workspace (d ∷ ds) e = ground (arith, not_live now id other workspace ds e)

find?-deleted :
    (now id : ℕ) (ds : List Document) (d : Document)
    → find? (λ x. nat_beq x.id id) (update_rows id (deleted_at_time now) ds) ≡ some d
    → is_some d.deleted_at ≡ true
unfolding update_rows
find?-deleted now id [] d h = ground arith
find?-deleted now id (x ∷ ds) d h = ground (arith, find?-deleted now id ds d)

module _ {F : Type 0} (fl : FloatOps F) (workspace document : ℕ) where
  abbrev IsOther : SearchResult F → Type 0
  IsOther hit = hit.payload.document_id ≢ document

  candidates-IsOther :
      (query : List F) (rs : List (VectorRecord F))
      → All (λ r. is_of workspace document r ≡ false) rs
      → All IsOther (map (scored fl query) (filter (in_workspace workspace) rs))
  unfolding scored
  candidates-IsOther query [] h = tt
  candidates-IsOther query (r ∷ rs) h = elim (Bool-cases (in_workspace workspace r)) [
    | inl e ↦ rw e ((λ same. ground arith), candidates-IsOther query rs h.1)
    | inr e ↦ rw e (candidates-IsOther query rs h.1)
  ]

  search-IsOther :
      (query : List F) (limit : ℕ) (d : Records F)
      → All IsOther (search fl query workspace limit (delete_by_document workspace document d))
  unfolding search
  search-IsOther query limit d = All-take IsOther limit _ (
      All-sorted_desc (by_score fl) IsOther _
        (candidates-IsOther query _ ((delete_by_document-exact workspace document d).0)))

abbrev without : {F : Type 0} → ℕ → ℕ → ℕ → World F (Records F) → World F (Records F)
without now workspace document w = commit (record w {
  session = with_documents (update_rows document (deleted_at_time now)) w.session;
  vectors = delete_by_document workspace document w.vectors;
})

get_for_user-without :
    {F : Type 0} (now workspace document : ℕ) (w : World F (Records F)) (other reader : ℕ)
    → get_for_user (without now workspace document w).session other document reader
      ≡ err not_found_error
unfolding get_for_user require_membership get_document commit with_documents
get_for_user-without now workspace document w other reader =
    let db = (without now workspace document w).session in
    elim (Option-cases (get_membership db other reader)) [
      | inl stranger ↦ ground arith
      | inr (m, e) ↦ elim (Option-cases (get_document db document)) [
        | inl missing ↦ ground arith
        | inr (d, found) ↦ ground (arith, find?-deleted now document w.session.documents d found)
      ]
    ]

not_visible :
    {F : Type 0} (now workspace document : ℕ) (w : World F (Records F)) (c : Chunk)
    → is_visible (without now workspace document w).session workspace c ≡ true
    → c.document_id ≢ document
unfolding is_visible commit with_documents
not_visible now workspace document w c seen same =
    ground (arith, not_live now document c.document_id workspace w.session.documents same)

module _ {F : Type 0} (fl : FloatOps F) (platform : Platform) (readers : Readers) (draw : ℕ → ℕ)
    (settings : Settings F) (embedder : EmbeddingProvider F) where
  delete_document-done :
      (now workspace document user : ℕ) (w : World F (Records F))
      → (delete_document platform readers draw settings embedder
          (memory_store fl)
          now
          workspace
          document
          user
          w).0
        ≡ ok tt
      → delete_document platform readers draw settings embedder
          (memory_store fl)
          now
          workspace
          document
          user
          w
        ≡ (ok tt, without now workspace document w)
  unfolding delete_document memory_store
  delete_document-done now workspace document user w h =
      elim (Result-cases (get_for_user w.session workspace document user)) [
        | inr (e, bad) ↦ absurd (ground arith)
        | inl (d, is) ↦ ground arith
      ]

  retrieval_after :
      (now workspace document : ℕ) (w : World F (Records F))
      → let w' = without now workspace document w in
        (w'.committed ≡ w'.session)
        × ((other reader : ℕ) → get_for_user w'.session other document reader ≡ err not_found_error)
        × ((round6 : F → F) (embedder' : EmbeddingProvider F) (settings' : Settings F)
              (query : Text) (result : RetrievalResult F) (s : Records F)
            → retrieve fl platform round6 embedder'
                (memory_store fl)
                settings'
                w'.session
                workspace
                query
                w'.vectors
              ≡ (ok result, s)
            → All (λ c. c.document_id ≢ document) result.citations)
  unfolding commit memory_store
  retrieval_after now workspace document w = (
    refl,
    get_for_user-without now workspace document w,
    λ round6 embedder' settings' query result s e.
        retrieve-From fl platform (λ id from text. from ≢ document) round6 (memory_store fl)
          embedder' settings' (without now workspace document w).session workspace query _ s result
          (λ v limit s' hits call.
            subst (All (IsOther fl workspace document)) (found v limit s' hits call)
              (search-IsOther fl workspace document v limit w.vectors))
          (λ c row seen. not_visible now workspace document w c seen) e,
  )
    where
      found :
          (v : List F) (limit : ℕ) (s' : Records F) (hits : List (SearchResult F))
          → (memory_store fl).search v workspace limit
              (delete_by_document workspace document w.vectors)
            ≡ (ok hits, s')
          → search fl v workspace limit (delete_by_document workspace document w.vectors) ≡ hits
      found v limit s' hits call = ground arith

  -- After `delete_document` succeeds over the in-memory store, everything is committed, every user
  -- gets `NotFoundError` for the document in every workspace, and no retrieval in its workspace,
  -- for any query, settings and embedder, cites a passage of it.
  pub delete_document-forgotten :
      (now workspace document user : ℕ) (w : World F (Records F))
      → let (r, w') =
          delete_document platform readers draw settings embedder
            (memory_store fl)
            now
            workspace
            document
            user
            w in
        r ≡ ok tt
        → (w'.committed ≡ w'.session)
          × ((other reader : ℕ)
              → get_for_user w'.session other document reader ≡ err not_found_error)
          × ((round6 : F → F) (embedder' : EmbeddingProvider F) (settings' : Settings F)
                (query : Text) (result : RetrievalResult F) (s : Records F)
              → retrieve fl platform round6 embedder'
                  (memory_store fl)
                  settings'
                  w'.session
                  workspace
                  query
                  w'.vectors
                ≡ (ok result, s)
              → All (λ c. c.document_id ≢ document) result.citations)
  delete_document-forgotten now workspace document user w h =
      simp (delete_document-done now workspace document user w h)
        (retrieval_after now workspace document w)
