-- ===== src/Tests/Golden.antt =====
-- A golden case whose document is cited twice.
use nexus_ai.Base.{ℕ, [], ◌∷◌}
use nexus_ai.Base.Dict.{Dict}
use nexus_ai.Base.Text.{Text, codes}
use nexus_ai.Evaluation.{GoldenCase}

abbrev golden : GoldenCase
golden = record { query = codes "sky"; relevant_labels = codes "colours" ∷ codes "lost" ∷ [] }

abbrev labels : Dict Text ℕ
labels = (codes "colours", 7) ∷ []
