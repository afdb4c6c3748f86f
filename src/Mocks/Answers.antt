-- ===== src/Mocks/Answers.antt =====
-- The stream of the mock model against its completion.
use nexus_ai.Base.{
  ℕ, ◌≡◌, refl, ap, ◌∙◌, none, List, [], ◌∷◌, ◌++◌, map, nat_beq, ok, Bool-cases, inl, inr, arith,
}
use nexus_ai.Base.Text.{Text, codes, join}
use nexus_ai.Providers.{LlmMessage, LlmResult}
use nexus_ai.Mocks.{split_space, mock_answer, mock_llm}

join-cons :
    (c : ℕ) (t : Text) (rest : List Text) → join [] ((c ∷ t) ∷ rest) ≡ c ∷ join [] (t ∷ rest)
unfolding join
join-cons c t [] = refl
join-cons c t (u ∷ rest) = refl

-- Each piece, followed by a space.
abbrev spaced : List Text → List Text
spaced pieces = map (λ t. t ++ codes " ") pieces

join-spaced : (s : Text) → join [] (spaced ((split_space s).0 ∷ (split_space s).1)) ≡ s ++ codes " "
unfolding join split_space
join-spaced [] = refl
join-spaced (c ∷ s) =
    let (piece, pieces) = split_space s in
    elim (Bool-cases (nat_beq c 32)) [
      | inl space ↦
          let e : c ≡ 32 = ground arith in rw (space, e) (ap (λ t. 32 ∷ t) (join-spaced s))
      | inr other ↦
          rw other
            (join-cons c (piece ++ codes " ") (spaced pieces) ∙ ap (λ t. c ∷ t) (join-spaced s))
    ]

-- The stream of the mock model never breaks off, and its deltas joined are the text of the
-- completion for the same messages, followed by one space.
pub mock_llm-streams :
    (messages : List LlmMessage)
    → let (deltas, failure) = mock_llm.stream messages in
      (failure ≡ none)
      × ((r : LlmResult) × (mock_llm.complete messages ≡ ok r)
          × (join [] deltas ≡ r.text ++ codes " "))
unfolding mock_llm
mock_llm-streams messages = (refl, (_, refl, join-spaced (mock_answer messages)))
