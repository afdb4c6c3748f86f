-- ===== src/Base/Bounded.antt =====
-- A list that keeps its last entries: `append`, and `del entries[0]` when it is too long.
use Prim.Native.Nat.{ℕ, zero, suc, ◌-◌, ◌≤◌}
use mathlib.Core.Path.{◌≡◌, refl}
use mathlib.Core.Bool.{true, false}
use mathlib.Core.Logic.{inl, inr}
use mathlib.Core.List.{List, [], ◌∷◌, ◌++◌}
use native.Mathlib.Omega.{arith}
use nexus_ai.Base.Tests.{ltb, if◌then◌else◌, Bool-cases}
use nexus_ai.Base.Lists.{length, drop, length-append, length-drop}

module _ {ℓ} {A : Type ℓ} where
  abbrev pub tail : List A → List A
  tail [] = []
  tail (x ∷ xs) = xs

  unfoldable pub push_bounded : ℕ → A → List A → List A
  push_bounded most x xs =
      let entries = xs ++ x ∷ [] in if ltb most (length entries) then tail entries else entries

  -- The last `n` elements.
  unfoldable pub last_of : ℕ → List A → List A
  last_of n xs = drop (length xs - n) xs

  drop-append : (n : ℕ) (xs ys : List A) → n ≤ length xs → drop n (xs ++ ys) ≡ drop n xs ++ ys
  drop-append zero xs ys h = refl
  drop-append (suc n) [] ys h = absurd (omega arith)
  drop-append (suc n) (x ∷ xs) ys h = drop-append n xs ys (omega arith)

  drop-nil : (n : ℕ) → drop {A = A} n [] ≡ []
  drop-nil zero = refl
  drop-nil (suc n) = refl

  pub last_of-nil : (n : ℕ) → last_of n [] ≡ []
  unfolding last_of
  last_of-nil n = drop-nil (0 - n)

  tail-drop : (n : ℕ) (xs : List A) → tail (drop n xs) ≡ drop (suc n) xs
  tail-drop zero [] = refl
  tail-drop zero (x ∷ xs) = refl
  tail-drop (suc n) [] = refl
  tail-drop (suc n) (x ∷ xs) = tail-drop n xs

  pub length-last_of-le : (n : ℕ) (xs : List A) → length (last_of n xs) ≤ n
  unfolding last_of
  length-last_of-le n xs = omega (arith, length-drop (length xs - n) xs)

  -- Bounded appends keep the last entries of all that was appended.
  pub push_bounded-last_of :
      (n : ℕ) (x : A) (xs : List A) → push_bounded n x (last_of n xs) ≡ last_of n (xs ++ x ∷ [])
  unfolding push_bounded last_of
  push_bounded-last_of n x xs =
      let len = length-append xs (x ∷ []) in
      elim (Bool-cases (ltb (length xs) n)) [
        | inl short ↦
            let e : length xs - n ≡ 0 = ground arith in
            let e' : length (xs ++ x ∷ []) - n ≡ 0 = ground arith in
            let b : ltb n (length (xs ++ x ∷ [])) ≡ false = ground arith in rw (e, e', b)
        | inr full ↦
            let k = length xs - n in
            let e' : length (xs ++ x ∷ []) - n ≡ suc k = ground arith in
            let fits : k ≤ length xs = omega arith in
            let b : ltb n (length (drop k xs ++ x ∷ [])) ≡ true =
              ground (arith, length-append (drop k xs) (x ∷ []), length-drop k xs) in
            rw (b, e', ← drop-append k xs (x ∷ []) fits) (tail-drop k (xs ++ x ∷ []))
      ]
