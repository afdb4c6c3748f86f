-- ===== src/Base/Text/Strip.antt =====
-- What `strip` keeps: every character that is no space, and no more than there was.
use nexus_ai.Base.Lists.{length, length-append, any}
use nexus_ai.Base.Text.{Text, is_space, lstrip, strip, runs_from, word_count}
use Prim.Native.Nat.{ℕ, ◌≤◌}
use nexus_ai.Base.Tests.{Bool-cases}
use mathlib.Core.Path.{◌≡◌, refl, ◌∙◌, ap, sym, subst}
use mathlib.Core.Logic.{◌≢◌, inl, inr}
use mathlib.Core.Bool.{Bool, true, false, not, ◌||◌}
use mathlib.Core.List.{[], ◌∷◌, ◌++◌, reverse, reverse-append, reverse-reverse}
use native.Mathlib.Omega.{arith}

abbrev pub has_text : Text → Bool
has_text = any (λ c. not (is_space c))

has_text-append : (s t : Text) → has_text (s ++ t) ≡ (has_text s || has_text t)
has_text-append [] t = refl
has_text-append (c ∷ s) t = ground (arith, has_text-append s t)

reverse-cons : (c : ℕ) (s : Text) → reverse (c ∷ s) ≡ reverse s ++ c ∷ []
reverse-cons c s = reverse-append (c ∷ []) s

has_text-reverse : (s : Text) → has_text (reverse s) ≡ has_text s
has_text-reverse [] = refl
has_text-reverse (c ∷ s) =
    rw (reverse-cons c s, has_text-append (reverse s) (c ∷ [])) (ground (arith, has_text-reverse s))

length-reverse : (s : Text) → length (reverse s) ≡ length s
length-reverse [] = refl
length-reverse (c ∷ s) =
    rw (reverse-cons c s) (omega (arith, length-append (reverse s) (c ∷ []), length-reverse s))

has_text-lstrip : (s : Text) → has_text (lstrip s) ≡ has_text s
unfolding lstrip
has_text-lstrip [] = refl
has_text-lstrip (c ∷ s) = ground (arith, has_text-lstrip s)

length-lstrip-le : (s : Text) → length (lstrip s) ≤ length s
unfolding lstrip
length-lstrip-le [] = omega arith
length-lstrip-le (c ∷ s) = ground (arith, length-lstrip-le s)

lstrip_text : (s : Text) → lstrip s ≢ [] → has_text (lstrip s) ≡ true
unfolding lstrip
lstrip_text [] h = absurd (h refl)
lstrip_text (c ∷ s) h = ground (arith, lstrip_text s)

pub has_text-strip : (s : Text) → has_text (strip s) ≡ has_text s
unfolding strip
has_text-strip s =
    has_text-reverse (lstrip (reverse (lstrip s)))
    ∙ has_text-lstrip (reverse (lstrip s))
    ∙ has_text-reverse (lstrip s)
    ∙ has_text-lstrip s

pub length-strip-le : (s : Text) → length (strip s) ≤ length s
unfolding strip
length-strip-le s = omega (
  arith,
  length-reverse (lstrip (reverse (lstrip s))),
  length-lstrip-le (reverse (lstrip s)),
  length-reverse (lstrip s),
  length-lstrip-le s,
)

-- A stripped text is empty or holds a character that is no space.
pub strip_text : (s : Text) → strip s ≢ [] → has_text (strip s) ≡ true
unfolding strip
strip_text s h =
    let t = reverse (lstrip s) in has_text-reverse (lstrip t) ∙ lstrip_text t (λ e. h (rw e))

pub runs_from-pos : (s : Text) → has_text s ≡ true → 1 ≤ runs_from false s
unfolding runs_from
runs_from-pos [] h = ground arith
runs_from-pos (c ∷ s) h = ground (arith, runs_from-pos s)

-- A text with a character that is no space has a word.
pub word_count-pos : (s : Text) → has_text s ≡ true → 1 ≤ word_count s
unfolding word_count
word_count-pos s h = runs_from-pos s h

lstrip-lstrip : (s : Text) → lstrip (lstrip s) ≡ lstrip s
unfolding lstrip
lstrip-lstrip [] = refl
lstrip-lstrip (c ∷ s) = elim (Bool-cases (is_space c)) [
  | inl space ↦ rw space (lstrip-lstrip s)
  | inr solid ↦ rw (solid, solid) refl
]

-- What `lstrip` leaves is the end of the text.
lstrip-suffix : (s : Text) → (before : Text) × (s ≡ before ++ lstrip s)
unfolding lstrip
lstrip-suffix [] = ([], refl)
lstrip-suffix (c ∷ s) = elim (Bool-cases (is_space c)) [
  | inl space ↦ let (before, e) = lstrip-suffix s in (c ∷ before, rw space (ap (◌∷◌ c) e))
  | inr solid ↦ ([], rw solid refl)
]

lstrip-prefix : (s t : Text) → lstrip (s ++ t) ≡ s ++ t → lstrip s ≡ s
unfolding lstrip
lstrip-prefix [] t h = refl
lstrip-prefix (c ∷ s) t h = elim (Bool-cases (is_space c)) [
  | inl space ↦
      let short : lstrip (s ++ t) ≡ c ∷ (s ++ t) = ground arith in
      let same : length (lstrip (s ++ t)) ≡ length (c ∷ (s ++ t)) = ap length short in
      absurd (omega (arith, same, length-lstrip-le (s ++ t)))
  | inr solid ↦ rw solid refl
]

-- A stripped text has no space at either end: to strip it again changes nothing.
pub strip-strip : (s : Text) → strip (strip s) ≡ strip s
unfolding strip
strip-strip s =
    let u = lstrip s in
    let v = lstrip (reverse u) in
    let (before, e) = lstrip-suffix (reverse u) in
    let front : u ≡ reverse v ++ reverse before =
      sym (reverse-reverse u) ∙ ap reverse e ∙ reverse-append before v in
    let kept : lstrip (reverse v) ≡ reverse v =
      lstrip-prefix (reverse v) (reverse before)
        (subst (λ t. lstrip t ≡ t) front (lstrip-lstrip s)) in
    rw (kept, reverse-reverse v, lstrip-lstrip (reverse u)) refl
