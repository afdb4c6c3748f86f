-- ===== src/Routes/Access.antt =====
-- What the routes of a workspace answer to a user who is no member of it.
use nexus_ai.Base.{
  ℕ, ◌≡◌, refl, false, ◌||◌, Option, none, List, nat_beq, ltb, length, Result, err, http_exception,
  not_found_error, arith,
}
use nexus_ai.Base.Float.{FloatOps}
use nexus_ai.Base.Text.{Text}
use nexus_ai.Config.{Settings}
use nexus_ai.Database.{User, Role}
use nexus_ai.Providers.{EmbeddingProvider, LlmProvider, Platform}
use nexus_ai.VectorStore.{VectorStore}
use nexus_ai.Extractors.{Readers}
use nexus_ai.Fetcher
use nexus_ai.Fetcher.{Network}
use nexus_ai.Workspaces
use nexus_ai.Workspaces.{get_membership}
use nexus_ai.Documents
use nexus_ai.Documents.{require_membership}
use nexus_ai.Conversations
use nexus_ai.Ingestion.{rollback}
use nexus_ai.Process.{Process}
use nexus_ai.Routes.Accounts.{get_workspace_route, add_member_route}
use nexus_ai.Routes.Files.{
  list_documents_route, get_document_route, upload_document, ingest_from_url, delete_document_route,
  reprocess_document_route,
}
use nexus_ai.Routes.Talks.{
  require_conversation, create_conversation_route, list_conversations_route, get_conversation_route,
  list_messages_route, list_runs_route, get_run_route, post_message, post_message_stream,
  create_run,
}

module _ {F S : Type 0} where
  -- The response is a 404, and nothing that outlives the request has changed.
  abbrev pub IsRefused : {A : Type 0} → Process F S → Result A × Process F S → Type 0
  IsRefused p (r, p') =
      (r ≡ err (http_exception 404))
      × (p'.world.committed ≡ p.world.committed)
      × (p'.world.files ≡ p.world.files)
      × (p'.world.vectors ≡ p.world.vectors)
      × (p'.cache ≡ p.cache)
      × (p'.memory ≡ p.memory)
      × (p'.metrics ≡ p.metrics)

  module _ (workspace : ℕ) (user : User) (p : Process F S) where
    abbrev pub AccountsRefused : ℕ → Role → Type 0
    AccountsRefused member role =
        IsRefused p (get_workspace_route workspace user p)
        × IsRefused p (add_member_route workspace member role user p)

    abbrev pub ReadsRefused : ℕ → ℕ → ℕ → Type 0
    ReadsRefused document conversation run =
        IsRefused p (list_documents_route workspace user p)
        × IsRefused p (get_document_route workspace document user p)
        × IsRefused p (list_conversations_route workspace user p)
        × IsRefused p (get_conversation_route workspace conversation user p)
        × IsRefused p (list_messages_route workspace conversation user p)
        × IsRefused p (list_runs_route workspace conversation user p)
        × IsRefused p (get_run_route workspace conversation run user p)

    module _ (platform : Platform) (readers : Readers) (draw : ℕ → ℕ) (settings : Settings F)
        (embedder : EmbeddingProvider F) (store : VectorStore F S) (network : Network F) where
      abbrev pub FilesRefused : ℕ → ℕ → ℕ → Text → Text → Text → Option Text → List ℕ → Type 0
      FilesRefused new_id now document filename content_type url name bytes =
          IsRefused p (
            upload_document platform readers draw settings embedder store network new_id workspace
              filename content_type bytes user p)
          × IsRefused p (
              ingest_from_url platform readers draw settings embedder store network new_id workspace
                url name user p)
          × IsRefused p (
              delete_document_route platform readers draw settings embedder store network now
                workspace document user p)
          × IsRefused p (
              reprocess_document_route platform readers draw settings embedder store network
                workspace document user p)

    module _ (fl : FloatOps F) (show : F → Text) (platform : Platform) (round6 : F → F)
        (settings : Settings F) (embedder : EmbeddingProvider F) (store : VectorStore F S)
        (llm : LlmProvider) where
      abbrev pub TalksRefused : ℕ → ℕ → ℕ → ℕ → ℕ → ℕ → Text → Type 0
      TalksRefused turn_id answer_id run_id tool_ms run_ms conversation message =
          IsRefused p (create_conversation_route turn_id workspace message user p)
          × IsRefused p (
              post_message fl show platform round6 settings embedder store llm turn_id answer_id
                workspace conversation message user p)
          × IsRefused p (
              post_message_stream fl show platform round6 settings embedder store llm turn_id
                answer_id workspace conversation message user p)
          × IsRefused p (
              create_run fl show platform round6 settings embedder store llm turn_id answer_id
                run_id tool_ms run_ms workspace conversation message user p)

  module _ (workspace : ℕ) (user : User) (p : Process F S)
      (stranger : get_membership p.world.session workspace user.id ≡ none) where
    not_member : require_membership p.world.session workspace user.id ≡ err not_found_error
    unfolding require_membership
    not_member = rw (require_membership, stranger) refl

    no_conversation :
        (conversation : ℕ)
        → require_conversation workspace conversation user p ≡ err (http_exception 404)
    unfolding require_conversation Conversations.get_for_user
    no_conversation conversation = rw not_member refl

    no_document :
        (document : ℕ)
        → Documents.get_for_user p.world.session workspace document user.id ≡ err not_found_error
    unfolding Documents.get_for_user
    no_document document = rw not_member refl

    accounts-refused : (member : ℕ) (role : Role) → AccountsRefused workspace user p member role
    unfolding get_workspace_route add_member_route Workspaces.get_for_user Workspaces.add_member
    accounts-refused member role = (
      rw (Workspaces.get_for_user, stranger) (refl, refl, refl, refl, refl, refl, refl),
      rw (Workspaces.add_member, stranger) (refl, refl, refl, refl, refl, refl, refl),
    )

    reads-refused :
        (document conversation run : ℕ) → ReadsRefused workspace user p document conversation run
    unfolding list_documents_route get_document_route list_conversations_route
        get_conversation_route list_messages_route list_runs_route get_run_route
        Documents.list_for_workspace Documents.get_for_user Conversations.list_for_user
    reads-refused document conversation run = (
      rw not_member (refl, refl, refl, refl, refl, refl, refl),
      rw not_member (refl, refl, refl, refl, refl, refl, refl),
      rw not_member (refl, refl, refl, refl, refl, refl, refl),
      rw (no_conversation conversation) (refl, refl, refl, refl, refl, refl, refl),
      rw (no_conversation conversation) (refl, refl, refl, refl, refl, refl, refl),
      rw (no_conversation conversation) (refl, refl, refl, refl, refl, refl, refl),
      rw (no_conversation conversation) (refl, refl, refl, refl, refl, refl, refl),
    )

    module _ (platform : Platform) (readers : Readers) (draw : ℕ → ℕ) (settings : Settings F)
        (embedder : EmbeddingProvider F) (store : VectorStore F S) (network : Network F) where
      files-refused :
          (new_id now document : ℕ) (filename content_type url : Text) (name : Option Text)
          (bytes : List ℕ)
          → (nat_beq (length bytes) 0 || ltb settings.max_upload_bytes (length bytes)) ≡ false
          → FilesRefused workspace user p platform readers draw settings embedder store network
              new_id now document filename content_type url name bytes
      unfolding upload_document ingest_from_url delete_document_route reprocess_document_route
          Documents.create_document Fetcher.create_document_from_url Documents.delete_document
          Documents.reprocess_document Documents.get_for_user rollback
      files-refused new_id now document filename content_type url name bytes fits =
          let filled : nat_beq (length bytes) 0 ≡ false = ground arith in
          let small : ltb settings.max_upload_bytes (length bytes) ≡ false = ground arith in
          (
            rw (filled, small, Documents.create_document, not_member)
                (refl, refl, refl, refl, refl, refl, refl),
            rw (Fetcher.create_document_from_url, not_member)
                (refl, refl, refl, refl, refl, refl, refl),
            rw (Documents.delete_document, no_document document)
                (refl, refl, refl, refl, refl, refl, refl),
            rw (Documents.reprocess_document, no_document document)
                (refl, refl, refl, refl, refl, refl, refl),
          )

    module _ (fl : FloatOps F) (show : F → Text) (platform : Platform) (round6 : F → F)
        (settings : Settings F) (embedder : EmbeddingProvider F) (store : VectorStore F S)
        (llm : LlmProvider) where
      talks-refused :
          (turn_id answer_id run_id tool_ms run_ms conversation : ℕ) (message : Text)
          → TalksRefused workspace user p fl show platform round6 settings embedder store llm
              turn_id answer_id run_id tool_ms run_ms conversation message
      unfolding create_conversation_route post_message post_message_stream create_run
          Conversations.create_conversation
      talks-refused turn_id answer_id run_id tool_ms run_ms conversation message = (
        rw (Conversations.create_conversation, not_member)
            (refl, refl, refl, refl, refl, refl, refl),
        rw (post_message, no_conversation conversation) (refl, refl, refl, refl, refl, refl, refl),
        rw (post_message_stream, no_conversation conversation)
            (refl, refl, refl, refl, refl, refl, refl),
        rw (create_run, no_conversation conversation) (refl, refl, refl, refl, refl, refl, refl),
      )

    -- A user with no membership in a workspace gets a 404 from every route of it, of its documents,
    -- its conversations and its agent runs, whatever ids the request names and whether they exist
    -- or not; and nothing committed, no file, no vector, no cached or remembered answer and no
    -- counter of the models changes. An upload is taken here to be one of an acceptable size.
    pub outsider-refused :
        (platform : Platform) (readers : Readers) (draw : ℕ → ℕ) (settings : Settings F)
        (embedder : EmbeddingProvider F) (store : VectorStore F S) (network : Network F)
        (fl : FloatOps F) (show : F → Text) (round6 : F → F) (llm : LlmProvider)
        (new_id now document conversation run turn_id answer_id run_id tool_ms run_ms member : ℕ)
        (role : Role) (filename content_type url message : Text) (name : Option Text)
        (bytes : List ℕ)
        → (nat_beq (length bytes) 0 || ltb settings.max_upload_bytes (length bytes)) ≡ false
        → AccountsRefused workspace user p member role
          × ReadsRefused workspace user p document conversation run
          × FilesRefused workspace user p platform readers draw settings embedder store network
              new_id now document filename content_type url name bytes
          × TalksRefused workspace user p fl show platform round6 settings embedder store llm
              turn_id answer_id run_id tool_ms run_ms conversation message
    outsider-refused platform readers draw settings embedder store network fl show round6 llm new_id
          now document conversation run turn_id answer_id run_id tool_ms run_ms member role filename
          content_type url message name bytes fits =
        (
          accounts-refused member role,
          reads-refused document conversation run,
          files-refused platform readers draw settings embedder store network new_id now document
              filename content_type url name bytes fits,
          talks-refused fl show platform round6 settings embedder store llm turn_id answer_id run_id
              tool_ms run_ms conversation message,
        )
