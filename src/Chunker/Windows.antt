-- ===== src/Chunker/Windows.antt =====
-- What the chunks of one text are: numbered without a gap, never empty, never longer than the size, and
-- together they reach every character that is no space.
use nexus_ai.Base.{
  ℕ, zero, suc, ◌+◌, ◌-◌, ◌≤◌, ◌<◌, ◌≡◌, ◌≢◌, refl, true, false, Option, some, List, [], ◌∷◌, ◌++◌,
  ltb, length, arith, Bool-cases, inl, inr, ◌∙◌, subst, All, All-append, Any, Any-append_left,
  Any-append_right, length-append, length-take-le, get_elem?, get_elem?-drop, get_elem?-take,
  get_elem?-lt, any-get_elem?, take, drop, not,
}
use nexus_ai.Base.Text.{Text, is_space, strip, word_count}
use nexus_ai.Base.Text.Strip.{
  has_text, has_text-strip, length-strip-le, strip_text, strip-strip, word_count-pos,
}
use nexus_ai.Chunker.{TextChunk, window_at, emit, windows}

-- The ordinals count up from `n`.
abbrev pub AreNumbered : ℕ → List TextChunk → Type 0
AreNumbered n [] = Unit
AreNumbered n (c ∷ cs) = (c.ordinal ≡ n) × AreNumbered (n + 1) cs

pub AreNumbered-append :
    (n : ℕ) (xs ys : List TextChunk)
    → AreNumbered n xs
    → AreNumbered (n + length xs) ys
    → AreNumbered n (xs ++ ys)
AreNumbered-append n [] ys h k = let e : n + 0 ≡ n = omega arith in rw (← e) k
AreNumbered-append n (x ∷ xs) ys h k =
    let e : n + suc (length xs) ≡ n + 1 + length xs = omega arith in
    (h.0, AreNumbered-append (n + 1) xs ys h.1 (rw e at k))

pub record IsGood (size : ℕ) (c : TextChunk) : Type 0 where
  pub some_text : 1 ≤ length c.text
  pub in_size : length c.text ≤ size
  pub some_token : 1 ≤ c.token_count
  pub counted : c.token_count ≡ word_count c.text
  pub stripped : strip c.text ≡ c.text

-- The text is the window of a stretch of the whole in which the place `i` lies.
abbrev pub Reaches : Text → ℕ → ℕ → Text → Type 0
Reaches text size i t = (s : ℕ) × (s ≤ i) × (i < s + size) × (t ≡ window_at text size s)

module _ (page : Option ℕ) (section : Option Text) where
  emit-AreNumbered :
      (ordinal : ℕ) (w : Text)
      → AreNumbered ordinal (emit page section ordinal w).0
        × ((emit page section ordinal w).1 ≡ ordinal + length (emit page section ordinal w).0)
  unfolding emit
  emit-AreNumbered ordinal [] = omega arith
  emit-AreNumbered ordinal (c ∷ w) = omega arith

  emit-IsGood :
      (ordinal : ℕ) (size : ℕ) (w : Text)
      → length w ≤ size
      → (w ≢ [] → 1 ≤ word_count w)
      → strip w ≡ w
      → All (IsGood size) (emit page section ordinal w).0
  unfolding emit
  emit-IsGood ordinal size [] h k same = tt
  emit-IsGood ordinal size (c ∷ w) h k same = (
    record {
      some_text = omega arith;
      in_size = h;
      some_token = k (λ e. cc);
      counted = refl;
      stripped = same;
    },
    tt,
  )

  emit-text :
      (ordinal : ℕ) (w : Text) (P : Text → Type 0)
      → w ≢ []
      → P w
      → Any (λ c. P c.text) (emit page section ordinal w).0
  unfolding emit
  emit-text ordinal [] P h p = absurd (h refl)
  emit-text ordinal (c ∷ w) P h p = inl p

  module _ (text : Text) (size step : ℕ) where
    window_at-length : (start : ℕ) → length (window_at text size start) ≤ size
    unfolding window_at
    window_at-length start = omega (
      arith,
      length-strip-le (take size (drop start text)),
      length-take-le size (drop start text),
    )

    window_at-words :
        (start : ℕ) → window_at text size start ≢ [] → 1 ≤ word_count (window_at text size start)
    unfolding window_at
    window_at-words start h =
        word_count-pos (strip (take size (drop start text)))
          (strip_text (take size (drop start text)) h)

    window_at-strip : (start : ℕ) → strip (window_at text size start) ≡ window_at text size start
    unfolding window_at
    window_at-strip start = strip-strip (take size (drop start text))

    pub windows-AreNumbered :
        (fuel start ordinal : ℕ)
        → AreNumbered ordinal (windows page section text size step fuel start ordinal).0
          × ((windows page section text size step fuel start ordinal).1
              ≡ ordinal + length (windows page section text size step fuel start ordinal).0)
    unfolding windows
    windows-AreNumbered zero start ordinal = omega arith
    windows-AreNumbered (suc fuel) start ordinal =
        let w = window_at text size start in
        let (chunks, next) = emit page section ordinal w in
        let (numbered, counted) = emit-AreNumbered ordinal w in
        let (numbered', counted') = windows-AreNumbered fuel (start + step) next in
        let rest = (windows page section text size step fuel (start + step) next).0 in
        elim (Bool-cases (ltb start (length text))) [
          | inl more ↦ rw more (
            AreNumbered-append ordinal chunks rest numbered
                (subst (λ n. AreNumbered n rest) counted numbered'),
            omega (arith, counted, counted', length-append chunks rest),
          )
          | inr done ↦ rw done (omega arith)
        ]

    pub windows-IsGood :
        (fuel start ordinal : ℕ)
        → All (IsGood size) (windows page section text size step fuel start ordinal).0
    unfolding windows
    windows-IsGood zero start ordinal = tt
    windows-IsGood (suc fuel) start ordinal =
        let w = window_at text size start in
        let (chunks, next) = emit page section ordinal w in
        elim (Bool-cases (ltb start (length text))) [
          | inl more ↦ rw more (
              All-append (IsGood size) chunks _
                (emit-IsGood ordinal size w (window_at-length start) (window_at-words start)
                  (window_at-strip start))
                (windows-IsGood fuel (start + step) next))
          | inr done ↦ rw done tt
        ]

    window_at-nonempty :
        (start i x : ℕ)
        → get_elem? text i ≡ some x
        → is_space x ≡ false
        → start ≤ i
        → i < start + size
        → window_at text size start ≢ []
    unfolding window_at
    window_at-nonempty start i x at solid lo hi e =
        let cut = take size (drop start text) in
        let there : get_elem? cut (i - start) ≡ some x =
          get_elem?-take size (i - start) (drop start text) (omega arith)
          ∙ get_elem?-drop start i text lo
          ∙ at in
        let has : has_text cut ≡ true =
          any-get_elem? (λ c. not (is_space c)) cut (i - start) x there (rw solid) in
        let none' : has_text (strip cut) ≡ false = rw e in cc (has_text-strip cut)

    pub windows-Reaches :
        (fuel start ordinal i x : ℕ)
        → 1 ≤ step
        → step ≤ size
        → length text - start ≤ fuel
        → start ≤ i
        → get_elem? text i ≡ some x
        → is_space x ≡ false
        → Any
            (λ c. Reaches text size i c.text)
            (windows page section text size step fuel start ordinal).0
    unfolding windows
    windows-Reaches zero start ordinal i x p q fits lo at solid =
        absurd (omega (arith, get_elem?-lt text i x at))
    windows-Reaches (suc fuel) start ordinal i x p q fits lo at solid =
        let w = window_at text size start in
        let (chunks, next) = emit page section ordinal w in
        let rest = (windows page section text size step fuel (start + step) next).0 in
        let lt = get_elem?-lt text i x at in
        let more : ltb start (length text) ≡ true = ground arith in
        rw more (elim (Bool-cases (ltb i (start + size))) [
          | inl here ↦
              let hi : i < start + size = ground arith in
              Any-append_left (λ c. Reaches text size i c.text) chunks rest
                (emit-text ordinal w (Reaches text size i)
                  (window_at-nonempty start i x at solid lo hi) (start, lo, hi, refl))
          | inr later ↦
              let past : start + step ≤ i = ground arith in
              Any-append_right (λ c. Reaches text size i c.text) chunks rest
                (windows-Reaches fuel (start + step) next i x p q (omega arith) past at solid)
        ])
