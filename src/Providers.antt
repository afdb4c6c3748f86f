-- ===== src/Providers.antt =====
-- app/ai/embeddings/base.py and app/ai/llm/base.py: the providers, which answer or raise. The
-- functions of Python's libraries that the services call are a record of parameters.
use nexus_ai.Base.{ℕ, ◌+◌, Bool, Option, List, Result, Error}
use nexus_ai.Base.Text.{Text}

pub record EmbeddingProvider (F : Type 0) : Type 0 where
  pub model : Text
  pub dimension : ℕ
  pub embed : List Text → Result (List (List F))

pub record LlmMessage : Type 0 where
  pub role : Text
  pub content : Text

pub record LlmResult : Type 0 where
  pub text : Text
  pub prompt_tokens : ℕ
  pub completion_tokens : ℕ

abbrev pub total_tokens : LlmResult → ℕ
total_tokens r = r.prompt_tokens + r.completion_tokens

pub record LlmProvider : Type 0 where
  pub complete : List LlmMessage → Result LlmResult
  -- the deltas that `stream` yields, and the exception that ends it early, if any
  pub stream : List LlmMessage → List Text × Option Error

pub record Platform : Type 0 where
  -- `str.lower`
  pub lower : Text → Text
  -- `text ILIKE '%term%'` in the database
  pub ilike : Text → Text → Bool
  -- `_HEADING_RE.findall`
  pub headings : Text → List Text
  -- `hashlib.sha256(data).hexdigest()`
  pub sha256_hex : List ℕ → Text
