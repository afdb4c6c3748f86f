-- ===== src/Base/Equality.antt =====
-- Python's `==` on keys and values, as an instance.
use Prim.Native.Nat.{ℕ}
use mathlib.Core.Path.{◌≡◌, refl}
use mathlib.Core.Logic.{◌↔◌}
use mathlib.Core.Bool.{Bool, true, false, ◌&&◌}
use mathlib.Core.List.{List, [], ◌∷◌}
use native.Mathlib.Omega.{arith}
use nexus_ai.Base.Tests.{nat_beq, nat_beq_iff}

pub record Eq {ℓ} (A : Type ℓ) : Type ℓ where
  pub beq : A → A → Bool
  -- the test decides the path
  pub beq_iff : (x y : A) → (beq x y ≡ true) ↔ (x ≡ y)

infix 50 ◌==◌
abbrev pub ◌==◌ {ℓ} : {K : Type ℓ} ⦃keys : Eq K⦄ → K → K → Bool
◌==◌ ⦃keys⦄ = keys.beq

instance abbrev pub nat_eq : Eq ℕ
nat_eq = record { beq = nat_beq; beq_iff = nat_beq_iff }

module _ {ℓ} {A : Type ℓ} ⦃e : Eq A⦄ where
  abbrev pub list_beq : List A → List A → Bool
  list_beq [] [] = true
  list_beq [] (y ∷ ys) = false
  list_beq (x ∷ xs) [] = false
  list_beq (x ∷ xs) (y ∷ ys) = x == y && list_beq xs ys

  pub list_beq_iff : (xs ys : List A) → (list_beq xs ys ≡ true) ↔ (xs ≡ ys)
  list_beq_iff [] [] = ground arith
  list_beq_iff [] (y ∷ ys) = ground arith
  list_beq_iff (x ∷ xs) [] = ground arith
  list_beq_iff (x ∷ xs) (y ∷ ys) = ground (arith, e.beq_iff x y, list_beq_iff xs ys)

  instance abbrev pub list_eq : Eq (List A)
  list_eq = record { beq = list_beq; beq_iff = list_beq_iff }

  pub eq_refl : (a : A) → (a == a) ≡ true
  eq_refl a = (e.beq_iff a a).1 refl

module _ {ℓ κ} {A : Type ℓ} {B : Type κ} ⦃e : Eq A⦄ ⦃f : Eq B⦄ where
  abbrev pub pair_beq : A × B → A × B → Bool
  pair_beq p q = p.0 == q.0 && p.1 == q.1

  pub pair_beq_iff : (p q : A × B) → (pair_beq p q ≡ true) ↔ (p ≡ q)
  pair_beq_iff (a, b) (c, d) = ground (arith, e.beq_iff a c, f.beq_iff b d)

  instance abbrev pub pair_eq : Eq (A × B)
  pair_eq = record { beq = pair_beq; beq_iff = pair_beq_iff }
