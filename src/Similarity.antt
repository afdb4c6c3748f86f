-- ===== src/Similarity.antt =====
-- The `_cosine` that the vector store, the semantic cache and the agent memory share.
use nexus_ai.Base.{◌||◌, List, [], ◌∷◌, if◌then◌else◌}
use nexus_ai.Base.Float.{FloatOps}

module _ {F : Type 0} (fl : FloatOps F) where
  -- Python's `sum` adds from the left, from 0.
  unfoldable pub dot_from : F → List F → List F → F
  dot_from acc [] ys = acc
  dot_from acc (x ∷ xs) [] = acc
  dot_from acc (x ∷ xs) (y ∷ ys) = dot_from (fl.add acc (fl.mul x y)) xs ys

  unfoldable pub norm : List F → F
  unfolding dot_from
  norm xs = fl.sqrt (dot_from fl.zero_float xs xs)

  unfoldable pub cosine : List F → List F → F
  unfolding dot_from norm
  cosine a b =
      if fl.is_zero (norm a) || fl.is_zero (norm b)
      then fl.zero_float
      else fl.div (dot_from fl.zero_float a b) (fl.mul (norm a) (norm b))
