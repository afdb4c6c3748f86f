-- ===== src/Evaluation.antt =====
-- app/eval/metrics.py and app/eval/harness.py: how well a golden dataset is retrieved. A set is a
-- list without repetition, and a document id and the text of it are one number. `k` is at least 0.
pub mod Ranks
use nexus_ai.Base.{
  ℕ, zero, suc, ◌+◌, Bool, true, false, not, Option, none, some, List, [], ◌∷◌, ◌++◌, map,
  if◌then◌else◌, any, count, take, length, nat_beq, nat_eq, list_eq, Exec, Result, ok, err, pure,
  ◌>>=◌, ◌>>◌,
}
use nexus_ai.Base.Dict
use nexus_ai.Base.Dict.{Dict}
use nexus_ai.Base.Float.{FloatOps}
use nexus_ai.Base.Text.{Text, codes}
use nexus_ai.Config.{Settings}
use nexus_ai.Database.{Db, Citation}
use nexus_ai.Providers.{EmbeddingProvider, Platform}
use nexus_ai.VectorStore.{VectorStore}
use nexus_ai.Retrieval.{RetrievalResult}
use nexus_ai.Retrieval.Whole.{retrieve}

pub record GoldenDocument : Type 0 where
  pub label : Text
  pub text : Text

pub record GoldenCase : Type 0 where
  pub query : Text
  pub relevant_labels : List Text

pub record GoldenDataset : Type 0 where
  pub documents : List GoldenDocument
  pub cases : List GoldenCase

pub record EvalReport (F : Type 0) : Type 0 where
  pub k : ℕ
  pub recall : F
  pub precision : F
  pub mrr : F
  pub per_case_recall : List F

abbrev pub is_one_of : List ℕ → ℕ → Bool
is_one_of ids id = any (λ other. nat_beq other id) ids

unfoldable pub sample_dataset : GoldenDataset
sample_dataset = record {
  documents =
      record {
        label = codes "capital";
        text = codes "The capital of Nexus is Aurora, a coastal city.";
      }
      ∷ record {
        label = codes "founded";
        text = codes "Nexus was founded in the year 2021 by engineers.";
      }
      ∷ record {
        label = codes "cadence";
        text = codes "The team ships product updates every single week.";
      }
      ∷ [];
  cases =
      record {
        query = codes "What is the capital of Nexus?";
        relevant_labels = codes "capital" ∷ [];
      }
      ∷ record { query = codes "When was Nexus founded?"; relevant_labels = codes "founded" ∷ [] }
      ∷ record {
        query = codes "How often does the team ship updates?";
        relevant_labels = codes "cadence" ∷ [];
      }
      ∷ [];
}

-- The loop over the citations, with `seen`.
unfoldable pub seen_from : {F : Type 0} → List ℕ → List (Citation F) → List ℕ
seen_from seen [] = seen
seen_from seen (c ∷ cs) =
    seen_from (if is_one_of seen c.document_id then seen else seen ++ c.document_id ∷ []) cs

-- The set of the documents that the known labels stand for.
unfoldable pub relevant_ids : Dict Text ℕ → List Text → List ℕ
unfolding Dict.lookup
relevant_ids ids [] = []
relevant_ids ids (label ∷ labels) =
    let rest = relevant_ids ids labels in
    elim (Dict.lookup label ids) [
      | none ↦ rest
      | some id ↦ if is_one_of rest id then rest else id ∷ rest
    ]

module _ {F : Type 0} (fl : FloatOps F) where
  unfoldable pub recall_at_k : List ℕ → List ℕ → ℕ → F
  recall_at_k retrieved relevant k =
      if nat_beq (length relevant) 0
      then fl.zero_float
      else fl.div (fl.of_nat (count (is_one_of (take k retrieved)) relevant))
          (fl.of_nat (length relevant))

  -- Without a `k`, or with nothing retrieved, the first ids are none.
  unfoldable pub precision_at_k : List ℕ → List ℕ → ℕ → F
  precision_at_k retrieved relevant k =
      let top = take k retrieved in
      if nat_beq (length top) 0
      then fl.zero_float
      else fl.div (fl.of_nat (count (is_one_of relevant) top)) (fl.of_nat (length top))

  unfoldable pub rank_from : ℕ → List ℕ → List ℕ → F
  rank_from index [] relevant = fl.zero_float
  rank_from index (id ∷ ids) relevant =
      let rest = rank_from (index + 1) ids relevant in
      if is_one_of relevant id then fl.div (fl.of_nat 1) (fl.of_nat index) else rest

  unfoldable pub reciprocal_rank : List ℕ → List ℕ → F
  unfolding rank_from
  reciprocal_rank retrieved relevant = rank_from 1 retrieved relevant

  abbrev pub total_from : F → List F → F
  total_from acc [] = acc
  total_from acc (x ∷ xs) = total_from (fl.add acc x) xs

  unfoldable pub mean : List F → F
  mean [] = fl.zero_float
  mean (x ∷ xs) = fl.div (total_from fl.zero_float (x ∷ xs)) (fl.of_nat (length (x ∷ xs)))

  module _ (platform : Platform) (round6 : F → F) where
    -- Recall, precision and reciprocal rank of one case.
    unfoldable pub score_case : Dict Text ℕ → ℕ → GoldenCase → RetrievalResult F → F × F × F
    unfolding seen_from relevant_ids recall_at_k precision_at_k reciprocal_rank
    score_case ids k golden result =
        let seen = seen_from [] result.citations in
        let relevant = relevant_ids ids golden.relevant_labels in
        (recall_at_k seen relevant k, precision_at_k seen relevant k, reciprocal_rank seen relevant)

    unfoldable pub score_cases :
        {S : Type 0}
        → EmbeddingProvider F
        → VectorStore F S
        → Settings F
        → Db F
        → ℕ
        → Dict Text ℕ
        → ℕ
        → List GoldenCase
        → Exec S (List (F × F × F))
    unfolding score_case retrieve
    score_cases embedder store settings db workspace ids k [] = pure []
    score_cases embedder store settings db workspace ids k (golden ∷ rest) = do
      result ← retrieve fl platform round6 embedder store settings db workspace golden.query
      scores ← score_cases embedder store settings db workspace ids k rest
      pure (score_case ids k golden result ∷ scores)

    abbrev pub report_of : ℕ → List (F × F × F) → EvalReport F
    report_of k scores = record {
      k = k;
      recall = mean (map (λ s. s.0) scores);
      precision = mean (map (λ s. s.1) scores);
      mrr = mean (map (λ s. s.2) scores);
      per_case_recall = map (λ s. s.0) scores;
    }

    unfoldable pub run_evaluation :
        {S : Type 0}
        → EmbeddingProvider F
        → VectorStore F S
        → Settings F
        → Db F
        → ℕ
        → Dict Text ℕ
        → ℕ
        → GoldenDataset
        → Exec S (EvalReport F)
    unfolding score_cases mean
    run_evaluation embedder store settings db workspace ids k dataset = do
      scores ← score_cases embedder store settings db workspace ids k dataset.cases
      pure (report_of k scores)
