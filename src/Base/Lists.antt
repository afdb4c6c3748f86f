-- ===== src/Base/Lists.antt =====
-- Lists measured by native numbers, Boolean filters, and predicates that hold of every element.
use Prim.Native.Nat.{ℕ, zero, suc, ◌+◌, ◌-◌, ◌≤◌, ◌<◌, min}
use mathlib.Core.Path.{◌≡◌, refl, ap}
use mathlib.Core.Logic.{◌⊎◌, inl, inr}
use mathlib.Core.Bool.{Bool, true, false, ◌||◌}
use mathlib.Core.List.{List, [], ◌∷◌, ◌++◌, map}
use mathlib.Core.Option.{Option, none, some}
use native.Mathlib.Omega.{arith}
use nexus_ai.Base.Tests.{if◌then◌else◌}

module _ {ℓ} {A : Type ℓ} where
  abbrev pub length : List A → ℕ
  length [] = 0
  length (x ∷ xs) = suc (length xs)

  abbrev pub take : ℕ → List A → List A
  take zero xs = []
  take (suc n) [] = []
  take (suc n) (x ∷ xs) = x ∷ take n xs

  abbrev pub drop : ℕ → List A → List A
  drop zero xs = xs
  drop (suc n) [] = []
  drop (suc n) (x ∷ xs) = drop n xs

  abbrev pub get_elem? : List A → ℕ → Option A
  get_elem? [] i = none
  get_elem? (x ∷ xs) zero = some x
  get_elem? (x ∷ xs) (suc i) = get_elem? xs i

  -- `[x for x in xs if p(x)]`
  abbrev pub filter : (A → Bool) → List A → List A
  filter p [] = []
  filter p (x ∷ xs) = let rest = filter p xs in if p x then x ∷ rest else rest

  abbrev pub find? : (A → Bool) → List A → Option A
  find? p [] = none
  find? p (x ∷ xs) = let rest = find? p xs in if p x then some x else rest

  abbrev pub any : (A → Bool) → List A → Bool
  any p [] = false
  any p (x ∷ xs) = p x || any p xs

  abbrev pub count : (A → Bool) → List A → ℕ
  count p [] = 0
  count p (x ∷ xs) = (if p x then 1 else 0) + count p xs

  abbrev pub All {κ} : (A → Type κ) → List A → Type κ
  All P [] = Unit
  All P (x ∷ xs) = P x × All P xs

  pub length-append : (xs ys : List A) → length (xs ++ ys) ≡ length xs + length ys
  length-append [] ys = omega arith
  length-append (x ∷ xs) ys = omega (arith, length-append xs ys)

  pub length-take-le : (n : ℕ) (xs : List A) → length (take n xs) ≤ n
  length-take-le zero xs = omega arith
  length-take-le (suc n) [] = omega arith
  length-take-le (suc n) (x ∷ xs) = omega (arith, length-take-le n xs)

  pub length-take : (n : ℕ) (xs : List A) → length (take n xs) ≡ min n (length xs)
  length-take zero xs = omega arith
  length-take (suc n) [] = omega arith
  length-take (suc n) (x ∷ xs) = omega (arith, length-take n xs)

  pub length-drop : (n : ℕ) (xs : List A) → length (drop n xs) ≡ length xs - n
  length-drop zero xs = omega arith
  length-drop (suc n) [] = omega arith
  length-drop (suc n) (x ∷ xs) = omega (arith, length-drop n xs)

  pub length-filter-le : (p : A → Bool) (xs : List A) → length (filter p xs) ≤ length xs
  length-filter-le p [] = omega arith
  length-filter-le p (x ∷ xs) = ground (arith, length-filter-le p xs)

  pub count-le-length : (p : A → Bool) (xs : List A) → count p xs ≤ length xs
  count-le-length p [] = omega arith
  count-le-length p (x ∷ xs) = ground (arith, count-le-length p xs)

  pub find?-sound : (p : A → Bool) (xs : List A) (x : A) → find? p xs ≡ some x → p x ≡ true
  find?-sound p [] x h = ground arith
  find?-sound p (y ∷ ys) x h = ground (arith, find?-sound p ys x)

module _ {ℓ κ} {A : Type ℓ} (P : A → Type κ) where
  pub All-append : (xs ys : List A) → All P xs → All P ys → All P (xs ++ ys)
  All-append [] ys h k = k
  All-append (x ∷ xs) ys h k = (h.0, All-append xs ys h.1 k)

  pub All-append_left : (xs ys : List A) → All P (xs ++ ys) → All P xs
  All-append_left [] ys h = tt
  All-append_left (x ∷ xs) ys h = (h.0, All-append_left xs ys h.1)

  pub All-append_right : (xs ys : List A) → All P (xs ++ ys) → All P ys
  All-append_right [] ys h = h
  All-append_right (x ∷ xs) ys h = All-append_right xs ys h.1

  pub All-take : (n : ℕ) (xs : List A) → All P xs → All P (take n xs)
  All-take zero xs h = tt
  All-take (suc n) [] h = tt
  All-take (suc n) (x ∷ xs) h = (h.0, All-take n xs h.1)

  pub All-drop : (n : ℕ) (xs : List A) → All P xs → All P (drop n xs)
  All-drop zero xs h = h
  All-drop (suc n) [] h = tt
  All-drop (suc n) (x ∷ xs) h = All-drop n xs h.1

  pub All-of : ((a : A) → P a) → (xs : List A) → All P xs
  All-of h [] = tt
  All-of h (x ∷ xs) = (h x, All-of h xs)

  pub All-find? : (p : A → Bool) (xs : List A) (x : A) → find? p xs ≡ some x → All P xs → P x
  All-find? p [] x e h = ground arith
  All-find? p (y ∷ ys) x e h = ground (arith, All-find? p ys x)

module _ {ℓ} {A : Type ℓ} (P : A → Type ℓ) where
  pub All-filter : (p : A → Bool) (xs : List A) → All P xs → All P (filter p xs)
  All-filter p [] h = tt
  All-filter p (x ∷ xs) h = ground (arith, All-filter p xs h.1)

module _ {ℓ} {A : Type ℓ} {P Q : A → Type ℓ} where
  pub All-map_imp : ((a : A) → P a → Q a) → (xs : List A) → All P xs → All Q xs
  All-map_imp f [] h = tt
  All-map_imp f (x ∷ xs) h = (f x h.0, All-map_imp f xs h.1)

-- A filter keeps only what passes its test.
pub All-filter_test {ℓ} :
    {A : Type ℓ} (p : A → Bool) (xs : List A) → All (λ x. p x ≡ true) (filter p xs)
All-filter_test p [] = tt
All-filter_test p (x ∷ xs) = ground (arith, All-filter_test p xs)

pub length-map {ℓ κ} :
    {A : Type ℓ} {B : Type κ} (f : A → B) (xs : List A) → length (map f xs) ≡ length xs
length-map f [] = refl
length-map f (x ∷ xs) = ap suc (length-map f xs)

module _ {ℓ} {A : Type ℓ} where
  pub take-append-drop : (n : ℕ) (xs : List A) → take n xs ++ drop n xs ≡ xs
  take-append-drop zero xs = refl
  take-append-drop (suc n) [] = refl
  take-append-drop (suc n) (x ∷ xs) = ap (◌∷◌ x) (take-append-drop n xs)

  pub get_elem?-drop :
      (n i : ℕ) (xs : List A) → n ≤ i → get_elem? (drop n xs) (i - n) ≡ get_elem? xs i
  get_elem?-drop zero i xs h = let e : i - 0 ≡ i = omega arith in rw e
  get_elem?-drop (suc n) i [] h = refl
  get_elem?-drop (suc n) zero (x ∷ xs) h = absurd (omega arith)
  get_elem?-drop (suc n) (suc i) (x ∷ xs) h =
      let e : suc i - suc n ≡ i - n = omega arith in rw e (get_elem?-drop n i xs (omega arith))

  pub get_elem?-take : (n i : ℕ) (xs : List A) → i < n → get_elem? (take n xs) i ≡ get_elem? xs i
  get_elem?-take zero i xs h = absurd (omega arith)
  get_elem?-take (suc n) i [] h = refl
  get_elem?-take (suc n) zero (x ∷ xs) h = refl
  get_elem?-take (suc n) (suc i) (x ∷ xs) h = get_elem?-take n i xs (omega arith)

  pub get_elem?-lt : (xs : List A) (i : ℕ) (x : A) → get_elem? xs i ≡ some x → i < length xs
  get_elem?-lt [] i x h = ground arith
  get_elem?-lt (y ∷ ys) zero x h = omega arith
  get_elem?-lt (y ∷ ys) (suc i) x h = omega (arith, get_elem?-lt ys i x h)

  pub any-get_elem? :
      (p : A → Bool) (xs : List A) (i : ℕ) (x : A)
      → get_elem? xs i ≡ some x
      → p x ≡ true
      → any p xs ≡ true
  any-get_elem? p [] i x h t = ground arith
  any-get_elem? p (y ∷ ys) zero x h t = ground arith
  any-get_elem? p (y ∷ ys) (suc i) x h t = ground (arith, any-get_elem? p ys i x h t)

  -- The predicate holds of some element.
  abbrev pub Any : (A → Type 0) → List A → Type 0
  Any P [] = ⊥
  Any P (x ∷ xs) = P x ⊎ Any P xs

module _ {ℓ} {A : Type ℓ} (P : A → Type 0) where
  pub Any-append_left : (xs ys : List A) → Any P xs → Any P (xs ++ ys)
  Any-append_left [] ys h = absurd h
  Any-append_left (x ∷ xs) ys (inl p) = inl p
  Any-append_left (x ∷ xs) ys (inr q) = inr (Any-append_left xs ys q)

  pub Any-append_right : (xs ys : List A) → Any P ys → Any P (xs ++ ys)
  Any-append_right [] ys h = h
  Any-append_right (x ∷ xs) ys h = inr (Any-append_right xs ys h)

pub Any-map_imp {ℓ} :
    {A : Type ℓ} {P Q : A → Type 0} → ((a : A) → P a → Q a) → (xs : List A) → Any P xs → Any Q xs
Any-map_imp f [] h = h
Any-map_imp f (x ∷ xs) (inl p) = inl (f x p)
Any-map_imp f (x ∷ xs) (inr q) = inr (Any-map_imp f xs q)
