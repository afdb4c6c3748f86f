-- ===== src/Evaluation/Ranks.antt =====
-- What the scores of a case say of the retrieved documents.
use nexus_ai.Base.{
  ℕ, ◌+◌, ◌≡◌, Bool, true, false, some, List, All, any, count, take, get_elem?, nat_beq, ◌⊎◌,
  nat_eq,
}
use nexus_ai.Base.Dict.{Dict}
use nexus_ai.Base.Float.{FloatOps}
use nexus_ai.Base.Text.{Text}
use nexus_ai.Database.{Citation}
use nexus_ai.Evaluation.{is_one_of}

abbrev pub is_cited : {F : Type 0} → ℕ → List (Citation F) → Bool
is_cited id cs = any (λ c. nat_beq c.document_id id) cs

abbrev pub occurrences : ℕ → List ℕ → ℕ
occurrences id ids = count (λ other. nat_beq other id) ids

module _ {F : Type 0} (fl : FloatOps F) where
  -- Either no id is relevant and the rank scores 0, or the first relevant one is at place `i`,
  -- counted from 0, and the rank scores one over its number from `index` on.
  abbrev pub IsRanked : ℕ → List ℕ → List ℕ → F → Type 0
  IsRanked index ids relevant rank =
      (All (λ id. is_one_of relevant id ≡ false) ids × (rank ≡ fl.zero_float))
      ⊎ ((i id : ℕ) × (get_elem? ids i ≡ some id)
          × (is_one_of relevant id ≡ true)
          × All (λ x. is_one_of relevant x ≡ false) (take i ids)
          × (rank ≡ fl.div (fl.of_nat 1) (fl.of_nat (index + i))))
