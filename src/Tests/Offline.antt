-- ===== src/Tests/Offline.antt =====
-- The offline providers on a short prompt and two texts.
use nexus_ai.Base.{
  list_beq, Option, some, err, other_error, if◌then◌else◌, ℕ, ◌≡◌, refl, none, List, [], ◌∷◌, ◌++◌,
  All, length, ok, arith, nat_eq,
}
use nexus_ai.Base.Float.{whole}
use nexus_ai.Base.Text.{Text, codes, join, is_space}
use nexus_ai.Providers.{LlmMessage, LlmResult}
use nexus_ai.Tests.Answers.{plain}
use nexus_ai.OpenAi.{
  Json, json_number, json_text, json_array, json_object, item, no_items, member, no_members,
  parse_sse_delta,
}
use nexus_ai.Mocks.{mock_llm, mock_embedder}
use nexus_ai.Mocks.Answers.{mock_llm-streams}
use nexus_ai.Mocks.Vectors.{mock_embedder-regular}

abbrev messages : List LlmMessage
messages =
    record { role = codes "system"; content = codes "Context: [1] The sky is blue." }
    ∷ record { role = codes "user"; content = codes "sky?" }
    ∷ []

mock_llm-streams_example :
    let (deltas, failure) = mock_llm.stream messages in
    (failure ≡ none)
    × ((r : LlmResult) × (mock_llm.complete messages ≡ ok r)
        × (join [] deltas ≡ r.text ++ codes " "))
mock_llm-streams_example = mock_llm-streams messages

abbrev digest : Text → List ℕ
digest t = 0 ∷ 0 ∷ 0 ∷ 5 ∷ 1 ∷ 0 ∷ 0 ∷ 0 ∷ 0 ∷ 0 ∷ 0 ∷ 0 ∷ 0 ∷ 0 ∷ 0 ∷ 0 ∷ []

abbrev texts : List Text
texts = codes "red sky" ∷ codes "blue" ∷ []

mock_embedder-regular_example :
    let provider = mock_embedder whole digest 4 plain (codes "unit") in
    (vs : List (List ℕ)) × (provider.embed texts ≡ ok vs)
    × (length vs ≡ length texts)
    × All (λ v. length v ≡ provider.dimension) vs
mock_embedder-regular_example =
    mock_embedder-regular whole digest 4 (λ t. refl) (omega arith) plain (codes "unit") texts

-- A delta, a keep-alive, and a line whose JSON is no object.
abbrev loads : Text → Option Json
loads [] = none
loads (c ∷ s) =
    if list_beq (c ∷ s) (codes "5")
    then some (json_number 5)
    else some (
        json_object (
          member (codes "choices")
            (json_array (
              item
                (json_object (
                  member (codes "delta")
                    (json_object (member (codes "content") (json_text (c ∷ s)) no_members))
                    no_members))
                no_items))
            no_members))

parse_sse_delta_runs :
    (parse_sse_delta loads (codes "data: sky") ≡ ok (some (json_text (codes "sky"))))
    × (parse_sse_delta loads (codes ": ping") ≡ ok none)
    × (parse_sse_delta loads (codes "data: [DONE]") ≡ ok none)
    × (parse_sse_delta loads (codes "data: 5") ≡ err (other_error 4))
unfolding parse_sse_delta is_space
parse_sse_delta_runs = (refl, refl, refl, refl)
