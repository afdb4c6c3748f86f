-- ===== src/Mocks.antt =====
-- app/ai/llm/mock.py and app/ai/embeddings/mock.py: the offline providers. MD5 is a parameter, a
-- list of bytes.
pub mod Answers
pub mod Vectors
use nexus_ai.Base.{
  ℕ, zero, suc, ◌+◌, ◌*◌, ◌%◌, Bool, true, false, ◌&&◌, ◌||◌, not, Option, none, some, List, [],
  ◌∷◌, ◌++◌, map, reverse, if◌then◌else◌, find?, take, drop, nat_beq, list_beq, nat_eq, get_elem?,
  Result, ok, err, Error, zero_division_error, other_error, and_then,
}
use nexus_ai.Base.Float.{FloatOps}
use nexus_ai.Base.Text.{Text, codes, strip, lstrip, starts_with, word_count, words}
use nexus_ai.Providers.{EmbeddingProvider, LlmProvider, LlmMessage, LlmResult, Platform}
use nexus_ai.Similarity.{norm}

-- `part in text`
unfoldable pub contains : Text → Text → Bool
unfolding starts_with
contains part [] = starts_with part []
contains part (c ∷ s) = starts_with part (c ∷ s) || contains part s

-- What follows the first `[1]`.
unfoldable pub after_mark : Text → Text
unfolding starts_with
after_mark [] = []
after_mark (c ∷ s) =
    let rest = after_mark s in if starts_with (codes "[1]") (c ∷ s) then drop 2 s else rest

-- What `.+` matches.
unfoldable pub until_newline : Text → Text
until_newline [] = []
until_newline (c ∷ s) = let rest = until_newline s in if nat_beq c 10 then [] else c ∷ rest

-- `text.split(" ")`: the piece before the first space, and the pieces after it.
unfoldable pub split_space : Text → Text × List Text
split_space [] = ([], [])
split_space (c ∷ s) =
    let (piece, pieces) = split_space s in
    if nat_beq c 32 then ([], piece ∷ pieces) else (c ∷ piece, pieces)

abbrev pub fallback : Text
fallback = codes "I couldn't find relevant information in the knowledge base to answer that."

-- The content of the first message with a role, or the empty text.
abbrev pub content_of : Text → List LlmMessage → Text
content_of role messages = elim (find? (λ m. list_beq m.role role) messages) [
  | none ↦ []
  | some m ↦ m.content
]

-- `match.group(1).strip()[:280]` for `\[1\]\s*(.+)`. Where only spaces follow the mark, the group
-- strips to nothing, as without a match.
unfoldable pub snippet_of : Text → Text
unfolding after_mark until_newline strip lstrip
snippet_of system = take 280 (strip (until_newline (lstrip (after_mark system))))

-- `MockLLMProvider._answer`
unfoldable pub mock_answer : List LlmMessage → Text
unfolding contains snippet_of strip
mock_answer messages =
    let system = content_of (codes "system") messages in
    let question = content_of (codes "user") (reverse messages) in
    if not (contains (codes "[1]") system && not (contains (codes "(none)") system))
    then fallback
    else codes "Based on the knowledge base, regarding "
      ++ (34 ∷ strip question)
      ++ (34 ∷ codes ": ")
      ++ snippet_of system
      ++ codes " [1]"

abbrev pub prompt_words : List LlmMessage → ℕ
prompt_words [] = 0
prompt_words (m ∷ ms) = word_count m.content + prompt_words ms

-- `MockLLMProvider`; each token is followed by a space.
unfoldable pub mock_llm : LlmProvider
unfolding mock_answer split_space word_count
mock_llm = record {
  complete = λ messages. ok (record {
    text = mock_answer messages;
    prompt_tokens = prompt_words messages;
    completion_tokens = word_count (mock_answer messages);
  });
  stream = λ messages.
      let (piece, pieces) = split_space (mock_answer messages) in
      (map (λ t. t ++ codes " ") (piece ∷ pieces), none);
}

-- `int.from_bytes(bytes, "big")`
abbrev pub from_bytes : ℕ → List ℕ → ℕ
from_bytes acc [] = acc
from_bytes acc (b ∷ bs) = from_bytes (acc * 256 + b) bs

module _ {F : Type 0} (fl : FloatOps F) where
  -- `vector[index] += amount`
  unfoldable pub add_at : ℕ → F → List F → List F
  add_at index amount [] = []
  add_at zero amount (x ∷ xs) = fl.add x amount ∷ xs
  add_at (suc index) amount (x ∷ xs) = x ∷ add_at index amount xs

  abbrev pub zeros : ℕ → List F
  zeros zero = []
  zeros (suc n) = fl.zero_float ∷ zeros n

  -- `1.0 if digest[4] & 1 else -1.0`; a digest of four bytes or fewer is an `IndexError`.
  unfoldable pub sign_of : List ℕ → Result F
  sign_of digest = elim (get_elem? digest 4) [
    | none ↦ err (other_error 0)
    | some b ↦ ok (if nat_beq (b % 2) 1 then fl.of_nat 1 else fl.sub fl.zero_float (fl.of_nat 1))
  ]

  module _ (md5 : Text → List ℕ) (dimension : ℕ) where
    -- The loop over the tokens. The remainder by 0 raises.
    unfoldable pub add_tokens : List Text → List F → Result (List F)
    unfolding add_at sign_of
    add_tokens [] vector = ok vector
    add_tokens (t ∷ ts) vector =
        if nat_beq dimension 0
        then err zero_division_error
        else (and_then (sign_of (md5 t))
            λ sign. add_tokens ts (add_at (from_bytes 0 (take 4 (md5 t)) % dimension) sign vector))

    abbrev pub normalised : List F → List F
    normalised vector =
        if fl.is_zero (norm fl vector)
        then vector
        else map (λ value. fl.div value (norm fl vector)) vector

    -- `_embed_one`
    unfoldable pub embed_one : Platform → Text → Result (List F)
    unfolding add_tokens words norm
    embed_one platform text =
        and_then (add_tokens (words (platform.lower text)) (zeros dimension))
          λ vector. ok (normalised vector)

    unfoldable pub embed_all : Platform → List Text → Result (List (List F))
    unfolding embed_one
    embed_all platform [] = ok []
    embed_all platform (t ∷ ts) =
        and_then (embed_one platform t) λ v. and_then (embed_all platform ts) λ vs. ok (v ∷ vs)

    unfoldable pub mock_embedder : Platform → Text → EmbeddingProvider F
    unfolding embed_all
    mock_embedder platform model = record {
      model = model;
      dimension = dimension;
      embed = embed_all platform;
    }
