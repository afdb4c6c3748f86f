-- ===== src/Base/Sorting.antt =====
-- Python's `sorted(..., reverse=True)`: stable, largest key first. `leq a b` says that the key of
-- `a` is at most that of `b`.
use Prim.Native.Nat.{suc}
use mathlib.Core.Path.{◌≡◌, refl, ap, ◌∙◌}
use mathlib.Core.Bool.{Bool, true, false}
use mathlib.Core.Logic.{inl, inr}
use mathlib.Core.List.{List, [], ◌∷◌, Perm}
use mathlib.Core.List.Perm
use native.Mathlib.Omega.{arith}
use nexus_ai.Base.Tests.{if◌then◌else◌, Bool-cases}
use nexus_ai.Base.Lists.{length, All, count}

-- `leq` is total and transitive.
pub record IsOrder {ℓ} {A : Type ℓ} (leq : A → A → Bool) : Type ℓ where
  pub total : (a b : A) → leq a b ≡ false → leq b a ≡ true
  pub trans : (a b c : A) → leq a b ≡ true → leq b c ≡ true → leq a c ≡ true

pub leq_refl {ℓ} : {A : Type ℓ} {leq : A → A → Bool} → IsOrder leq → (a : A) → leq a a ≡ true
leq_refl order a = ground (arith, order.total a a)

module _ {ℓ} {A : Type ℓ} (leq : A → A → Bool) where
  -- An earlier element goes before the later ones of the same key.
  unfoldable pub insert_desc : A → List A → List A
  insert_desc x [] = x ∷ []
  insert_desc x (y ∷ ys) = let rest = insert_desc x ys in if leq y x then x ∷ y ∷ ys else y ∷ rest

  unfoldable pub sorted_desc : List A → List A
  unfolding insert_desc
  sorted_desc [] = []
  sorted_desc (x ∷ xs) = insert_desc x (sorted_desc xs)

  abbrev pub IsSortedDesc : List A → Type 0
  IsSortedDesc [] = Unit
  IsSortedDesc (x ∷ []) = Unit
  IsSortedDesc (x ∷ y ∷ ys) = (leq y x ≡ true) × IsSortedDesc (y ∷ ys)

  insert_desc-perm : (x : A) (ys : List A) → Perm (insert_desc x ys) (x ∷ ys)
  unfolding insert_desc
  insert_desc-perm x [] = Perm.refl _
  insert_desc-perm x (y ∷ ys) = elim (Bool-cases (leq y x)) [
    | inl e ↦ rw e (Perm.refl _)
    | inr e ↦ rw e (Perm.trans (Perm.cons y (insert_desc-perm x ys)) (Perm.swap x y ys))
  ]

  pub sorted_desc-perm : (xs : List A) → Perm (sorted_desc xs) xs
  unfolding sorted_desc
  sorted_desc-perm [] = Perm.refl _
  sorted_desc-perm (x ∷ xs) =
      Perm.trans (insert_desc-perm x (sorted_desc xs)) (Perm.cons x (sorted_desc-perm xs))

  length-insert_desc : (x : A) (ys : List A) → length (insert_desc x ys) ≡ suc (length ys)
  unfolding insert_desc
  length-insert_desc x [] = refl
  length-insert_desc x (y ∷ ys) = ground (arith, length-insert_desc x ys)

  pub length-sorted_desc : (xs : List A) → length (sorted_desc xs) ≡ length xs
  unfolding sorted_desc
  length-sorted_desc [] = refl
  length-sorted_desc (x ∷ xs) =
      length-insert_desc x (sorted_desc xs) ∙ ap suc (length-sorted_desc xs)

  module _ (order : IsOrder leq) where
    insert_desc-IsSortedDesc :
        (x : A) (ys : List A) → IsSortedDesc ys → IsSortedDesc (insert_desc x ys)
    unfolding insert_desc
    insert_desc-IsSortedDesc x [] h = tt
    insert_desc-IsSortedDesc x (y ∷ []) h = ground (arith, order.total y x)
    insert_desc-IsSortedDesc x (y ∷ z ∷ zs) h =
        ground (arith, order.total y x, order.total z x, insert_desc-IsSortedDesc x (z ∷ zs) h.1)

    pub sorted_desc-IsSortedDesc : (xs : List A) → IsSortedDesc (sorted_desc xs)
    unfolding sorted_desc
    sorted_desc-IsSortedDesc [] = tt
    sorted_desc-IsSortedDesc (x ∷ xs) =
        insert_desc-IsSortedDesc x (sorted_desc xs) (sorted_desc-IsSortedDesc xs)

module _ {ℓ} {A : Type ℓ} (leq : A → A → Bool) (P : A → Type ℓ) where
  All-insert_desc : (x : A) (ys : List A) → P x → All P ys → All P (insert_desc leq x ys)
  unfolding insert_desc
  All-insert_desc x [] p h = (p, tt)
  All-insert_desc x (y ∷ ys) p h = ground (arith, All-insert_desc x ys p h.1)

  pub All-sorted_desc : (xs : List A) → All P xs → All P (sorted_desc leq xs)
  unfolding sorted_desc
  All-sorted_desc [] h = tt
  All-sorted_desc (x ∷ xs) h = All-insert_desc x (sorted_desc leq xs) h.0 (All-sorted_desc xs h.1)

module _ {ℓ} {A : Type ℓ} (leq : A → A → Bool) (p : A → Bool) where
  count-insert_desc : (x : A) (ys : List A) → count p (insert_desc leq x ys) ≡ count p (x ∷ ys)
  unfolding insert_desc
  count-insert_desc x [] = refl
  count-insert_desc x (y ∷ ys) = ground (arith, count-insert_desc x ys)

  -- Sorting changes no count.
  pub count-sorted_desc : (xs : List A) → count p (sorted_desc leq xs) ≡ count p xs
  unfolding sorted_desc
  count-sorted_desc [] = refl
  count-sorted_desc (x ∷ xs) =
      ground (arith, count-insert_desc x (sorted_desc leq xs), count-sorted_desc xs)
