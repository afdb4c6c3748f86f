-- ===== src/OpenAi.antt =====
-- app/ai/llm/openai.py, what it sends and how it reads a stream, and the factories of the providers.
-- The reply of the service is a parameter, as is `json.loads`. A JSON number is one from 0 on.
use nexus_ai.Base.{
  ℕ, Bool, true, false, ◌&&◌, ◌||◌, not, Option, none, some, [], ◌∷◌, ◌++◌, drop, if◌then◌else◌,
  nat_beq, list_beq, nat_eq, list_eq, Result, ok, err, value_error, other_error, and_then,
}
use nexus_ai.Base.Dict.{Dict}
use nexus_ai.Base.Text.{Text, codes, strip, starts_with}
use nexus_ai.Config.{Settings}

mutual
  pub data Json : Type 0 where
    json_null : Json
    json_bool : Bool → Json
    json_number : ℕ → Json
    json_text : Text → Json
    json_array : Items → Json
    json_object : Members → Json

  pub data Items : Type 0 where
    no_items : Items
    item : Json → Items → Items

  pub data Members : Type 0 where
    no_members : Members
    member : Text → Json → Members → Members

-- `bool(value)`
unfoldable pub is_true : Json → Bool
is_true json_null = false
is_true (json_bool b) = b
is_true (json_number n) = not (nat_beq n 0)
is_true (json_text []) = false
is_true (json_text (c ∷ s)) = true
is_true (json_array no_items) = false
is_true (json_array (item x xs)) = true
is_true (json_object no_members) = false
is_true (json_object (member k v ms)) = true

-- `members.get(key)`, which is `None` without the key
unfoldable pub member_at : Text → Members → Json
member_at key no_members = json_null
member_at key (member k v ms) = let rest = member_at key ms in if list_beq k key then v else rest

-- `value.get(key)`; a value that is no object has no `get`, an `AttributeError`.
unfoldable pub get_member : Text → Json → Result Json
unfolding member_at
get_member key (json_object ms) = ok (member_at key ms)
get_member key _ = err (other_error 4)

-- `choices[0]` of choices that count as true: the first of an array or of a text, and otherwise a
-- `KeyError` or a `TypeError`.
unfoldable pub first_of : Json → Result Json
first_of (json_array (item x xs)) = ok x
first_of (json_text (c ∷ s)) = ok (json_text (c ∷ []))
first_of _ = err (other_error 5)

-- `delta.get("content")` of `delta or {}`
unfoldable pub content_in : Json → Result Json
unfolding is_true get_member
content_in delta = if is_true delta then get_member (codes "content") delta else ok json_null

-- The content of a chunk, if it counts as true.
unfoldable pub chunk_content : Json → Result (Option Json)
unfolding get_member is_true first_of content_in
chunk_content chunk = and_then (get_member (codes "choices") chunk) λ choices.
    if not (is_true choices)
    then ok none
    else (and_then (first_of choices) λ first. and_then (get_member (codes "delta") first) λ delta.
        and_then (content_in delta) λ content. ok (if is_true content then some content else none))

module _ (loads : Text → Option Json) where
  -- The chunk of a line, if it is a `data:` line with JSON in it.
  unfoldable pub chunk_of : Text → Option Json
  unfolding starts_with strip
  chunk_of line =
      let body = strip (drop 5 line) in
      if starts_with (codes "data:") line
        && not (list_beq body [])
        && not (list_beq body (codes "[DONE]"))
      then loads body
      else none

  -- `_parse_sse_delta`
  unfoldable pub parse_sse_delta : Text → Result (Option Json)
  unfolding chunk_of chunk_content
  parse_sse_delta line = elim (chunk_of line) [ none ↦ ok none | some chunk ↦ chunk_content chunk ]

-- `OpenAILLMProvider`
pub record OpenAiProvider (F : Type 0) : Type 0 where
  pub model : Text
  pub api_key : Text
  pub base_url : Text
  pub temperature : F
  pub max_tokens : Option ℕ

-- `base_url.rstrip("/")`
unfoldable pub without_slash : Text → Text
without_slash [] = []
without_slash (c ∷ s) = elim (without_slash s) [
  | [] ↦ if nat_beq c 47 then [] else c ∷ []
  | d ∷ rest ↦ c ∷ d ∷ rest
]

abbrev pub is_empty : Text → Bool
is_empty [] = true
is_empty (c ∷ s) = false

module _ {F : Type 0} where
  -- `__init__`
  unfoldable pub new_provider : Text → Text → Text → F → Option ℕ → Result (OpenAiProvider F)
  unfolding without_slash
  new_provider model api_key base_url temperature max_tokens =
      if is_empty api_key
      then err value_error
      else (ok (record {
        model = model;
        api_key = api_key;
        base_url = without_slash base_url;
        temperature = temperature;
        max_tokens = max_tokens;
      }))

  unfoldable pub url_of : OpenAiProvider F → Text
  url_of provider = provider.base_url ++ codes "/chat/completions"

  unfoldable pub request_headers : OpenAiProvider F → Dict Text Text
  request_headers provider =
      (codes "Authorization", codes "Bearer " ++ provider.api_key)
      ∷ (codes "Content-Type", codes "application/json")
      ∷ []

-- What the factories choose.
pub data LlmChoice (F : Type 0) : Type 0 where
  mock_choice : Text → LlmChoice F
  openai_choice : OpenAiProvider F → LlmChoice F

-- `settings.llm_max_tokens or None`
abbrev pub tokens_or_none : ℕ → Option ℕ
tokens_or_none n = if nat_beq n 0 then none else some n

module _ {F : Type 0} (lower : Text → Text) where
  unfoldable pub get_llm_provider : Settings F → Result (LlmChoice F)
  unfolding new_provider
  get_llm_provider settings =
      let provider = lower settings.llm_provider in
      if list_beq provider (codes "mock")
      then ok (mock_choice settings.llm_model)
      else if list_beq provider (codes "openai") || list_beq provider (codes "openai-compatible")
      then (and_then
          (new_provider settings.llm_model settings.llm_api_key settings.llm_base_url
            settings.llm_temperature (tokens_or_none settings.llm_max_tokens))
          λ chosen. ok (openai_choice chosen))
      else err value_error

  -- The model and the dimension of the mock embedder.
  unfoldable pub get_embedding_provider : Settings F → Result (Text × ℕ)
  get_embedding_provider settings =
      if list_beq (lower settings.embedding_provider) (codes "mock")
      then ok (settings.embedding_model, settings.embedding_dimension)
      else err value_error
