-- ===== src/Database.antt =====
-- app/models: the tables, as lists of rows in the order in which the database gives them. A UUID is
-- a number, a timestamp is a number of seconds, and a score or a cost is of type `F`. The columns
-- `created_at` and `updated_at` are left out, and an `error` is the exception whose text is stored.
use nexus_ai.Base.{ℕ, Bool, Option, List, [], Error}
use nexus_ai.Base.Text.{Text}

-- app/models/enums.py
pub data Role : Type 0 where
  owner admin member viewer : Role

pub data DocumentStatus : Type 0 where
  queued processing indexed failed : DocumentStatus

pub data MessageRole : Type 0 where
  system user assistant : MessageRole

pub data AgentRunStatus : Type 0 where
  running completed failed : AgentRunStatus

pub record User : Type 0 where
  pub id : ℕ
  pub email : Text
  pub hashed_password : Text
  pub full_name : Option Text
  pub is_active : Bool
  pub deleted_at : Option ℕ

pub record Workspace : Type 0 where
  pub id : ℕ
  pub name : Text
  pub owner_id : ℕ
  pub deleted_at : Option ℕ

pub record Membership : Type 0 where
  pub user_id : ℕ
  pub workspace_id : ℕ
  pub role : Role

pub record RefreshToken : Type 0 where
  pub user_id : ℕ
  pub jti : ℕ
  pub expires_at : ℕ
  pub revoked_at : Option ℕ

pub record Document : Type 0 where
  pub id : ℕ
  pub workspace_id : ℕ
  pub filename : Text
  pub mime_type : Text
  pub size_bytes : ℕ
  pub checksum : Text
  pub status : DocumentStatus
  pub error : Option Error
  pub chunk_count : ℕ
  pub deleted_at : Option ℕ

pub record Chunk : Type 0 where
  pub id : ℕ
  pub document_id : ℕ
  pub ordinal : ℕ
  pub text : Text
  pub token_count : ℕ
  pub page : Option ℕ
  pub section : Option Text

pub record Embedding : Type 0 where
  pub chunk_id : ℕ
  pub vector_id : ℕ
  pub model : Text
  pub dimension : ℕ

pub record Conversation : Type 0 where
  pub id : ℕ
  pub workspace_id : ℕ
  pub user_id : ℕ
  pub title : Text

-- The dictionary that `_assemble` makes of a chunk.
pub record Citation (F : Type 0) : Type 0 where
  pub chunk_id : ℕ
  pub document_id : ℕ
  pub ordinal : Option ℕ
  pub page : Option ℕ
  pub section : Option Text
  pub score : F
  pub text : Text

pub record Message (F : Type 0) : Type 0 where
  pub id : ℕ
  pub conversation_id : ℕ
  pub role : MessageRole
  pub content : Text
  pub tokens : ℕ
  pub citations : Option (List (Citation F))

-- One entry of `AgentRun.steps`.
pub record Step : Type 0 where
  pub step : ℕ
  pub thought : Text
  pub action : Text
  pub observation : Text

pub record ToolCall : Type 0 where
  pub tool : Text
  pub input : Text
  pub result_count : ℕ
  pub latency_ms : ℕ

pub record AgentRun (F : Type 0) : Type 0 where
  pub id : ℕ
  pub conversation_id : ℕ
  pub status : AgentRunStatus
  pub objective : Text
  pub steps : List Step
  pub tool_calls : List ToolCall
  pub cost_usd : F
  pub latency_ms : ℕ
  pub answer_message_id : Option ℕ
  pub error : Option Error

pub record Db (F : Type 0) : Type 0 where
  pub users : List User
  pub workspaces : List Workspace
  pub memberships : List Membership
  pub refresh_tokens : List RefreshToken
  pub documents : List Document
  pub chunks : List Chunk
  pub embeddings : List Embedding
  pub conversations : List Conversation
  pub messages : List (Message F)
  pub agent_runs : List (AgentRun F)
  -- The `created_at` of the message with an id, which the database sets: the time of the
  -- transaction, so messages of one transaction have the same.
  pub message_time : ℕ → ℕ

abbrev pub no_rows : {F : Type 0} → Db F
no_rows = record {
  users = [];
  workspaces = [];
  memberships = [];
  refresh_tokens = [];
  documents = [];
  chunks = [];
  embeddings = [];
  conversations = [];
  messages = [];
  agent_runs = [];
  message_time = λ id. 0;
}
