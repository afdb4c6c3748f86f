-- ===== src/Base/Dict.antt =====
-- Python's `dict` in insertion order, over keys with an equality test.
use mathlib.Core.Path.{◌≡◌, refl}
use mathlib.Core.Logic.{◌≢◌}
use mathlib.Core.List.{List, [], ◌∷◌}
use mathlib.Core.Option.{Option, none, some}
use native.Mathlib.Omega.{arith}
use nexus_ai.Base.Tests.{if◌then◌else◌}
use nexus_ai.Base.Equality.{Eq, ◌==◌, eq_refl}
use nexus_ai.Base.Lists.{All}

abbrev pub Dict {ℓ κ} : Type ℓ → Type κ → Type (ℓ ⊔ κ)
Dict K V = List (K × V)

module _ {ℓ} {K V : Type ℓ} where
  -- `d.values()`
  abbrev pub values : Dict K V → List V
  values [] = []
  values (e ∷ d) = e.1 ∷ values d

module _ {ℓ} {K V : Type ℓ} ⦃e : Eq K⦄ where
  -- `d.get(k)`
  unfoldable pub lookup : K → Dict K V → Option V
  lookup k [] = none
  lookup k ((j, v) ∷ d) = if j == k then some v else lookup k d

  -- `d[k] = v`
  unfoldable pub insert : K → V → Dict K V → Dict K V
  insert k v [] = (k, v) ∷ []
  insert k v ((j, w) ∷ d) = let rest = insert k v d in if j == k then (k, v) ∷ d else (j, w) ∷ rest

  -- `d.get(k, default)`
  abbrev pub get_or : K → Dict K V → V → V
  get_or k d default = elim (lookup k d) [ none ↦ default | some v ↦ v ]

  pub lookup-insert :
      (k j : K) (v : V) (d : Dict K V)
      → lookup j (insert k v d) ≡ (if k == j then some v else lookup j d)
  unfolding lookup insert
  lookup-insert k j v [] = refl
  lookup-insert k j v ((i, w) ∷ d) =
      ground (arith, e.beq_iff k j, e.beq_iff i k, e.beq_iff i j, lookup-insert k j v d)

  pub lookup-insert_self : (k : K) (v : V) (d : Dict K V) → lookup k (insert k v d) ≡ some v
  lookup-insert_self k v d = ground (arith, lookup-insert k k v d, eq_refl k)

  pub lookup-insert_ne :
      (k j : K) (v : V) (d : Dict K V) → k ≢ j → lookup j (insert k v d) ≡ lookup j d
  lookup-insert_ne k j v d h = ground (arith, lookup-insert k j v d, e.beq_iff k j)

  module _ (P : V → Type ℓ) where
    pub All-values-insert :
        (k : K) (v : V) (d : Dict K V) → P v → All P (values d) → All P (values (insert k v d))
    unfolding insert
    All-values-insert k v [] p h = (p, tt)
    All-values-insert k v ((j, w) ∷ d) p h = ground (arith, All-values-insert k v d p h.1)

    pub All-lookup : (k : K) (v : V) (d : Dict K V) → lookup k d ≡ some v → All P (values d) → P v
    unfolding lookup
    All-lookup k v [] e' h = ground arith
    All-lookup k v ((j, w) ∷ d) e' h = ground (arith, All-lookup k v d)
