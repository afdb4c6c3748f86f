-- ===== src/Metrics/Histograms.antt =====
-- What a histogram counts.
use nexus_ai.Base.{
  ℕ, ◌≤◌, ◌≡◌, refl, ap, Bool, true, List, [], ◌∷◌, map, count, length, sorted_desc, IsOrder,
  IsSortedDesc, sorted_desc-IsSortedDesc, count-le-length, arith,
}
use nexus_ai.Base.Float.{FloatOps}
use nexus_ai.Base.Text.{Text}
use nexus_ai.Metrics.{Histogram, new_histogram, bump, observe}

-- Each number is at most the next, and the last at most `most`.
abbrev pub IsCumulative : ℕ → List ℕ → Type 0
IsCumulative most [] = Unit
IsCumulative most (n ∷ []) = n ≤ most
IsCumulative most (n ∷ m ∷ ns) = (n ≤ m) × IsCumulative most (m ∷ ns)

count_mono {ℓ} :
    {A : Type ℓ} (p q : A → Bool) (xs : List A)
    → ((x : A) → p x ≡ true → q x ≡ true)
    → count p xs ≤ count q xs
count_mono p q [] h = omega arith
count_mono p q (x ∷ xs) h = ground (arith, count_mono p q xs h, h x)

module _ {F : Type 0} (fl : FloatOps F) (show : F → Text) where
  -- The values that were observed, latest first.
  unfoldable pub observe_all : List F → Histogram F → Histogram F
  observe_all [] h = h
  observe_all (v ∷ vs) h = observe fl show v (observe_all vs h)

  abbrev pub tally : List F → F → ℕ
  tally values b = count (λ v. fl.leq v b) values

  bump-tally :
      (v : F) (vs bs : List F) → bump fl show v bs (map (tally vs) bs) ≡ map (tally (v ∷ vs)) bs
  unfolding bump
  bump-tally v vs [] = refl
  bump-tally v vs (b ∷ bs) = ground (arith, bump-tally v vs bs)

  zeros_lem : (bs : List F) → map (λ b. 0) bs ≡ map (tally []) bs
  zeros_lem [] = refl
  zeros_lem (b ∷ bs) = ap (◌∷◌ 0) (zeros_lem bs)

  -- What holds of the histogram after the values.
  record Counted (values bs : List F) (h : Histogram F) : Type 0 where
    bounds : h.buckets ≡ bs
    counted : h.counts ≡ map (tally values) bs
    observed : h.observations ≡ length values

  observe-Counted :
      (v : F) (vs bs : List F) (h : Histogram F)
      → Counted vs bs h
      → Counted (v ∷ vs) bs (observe fl show v h)
  unfolding observe
  observe-Counted v vs bs h before = record {
    bounds = before.bounds;
    counted = rw (before.bounds, before.counted) (bump-tally v vs bs);
    observed = ground (arith, before.observed);
  }

  observe_all-Counted :
      (h : Histogram F) (bs values : List F)
      → Counted [] bs h
      → Counted values bs (observe_all values h)
  unfolding observe_all
  observe_all-Counted h bs [] start = start
  observe_all-Counted h bs (v ∷ vs) start =
      observe-Counted v vs bs (observe_all vs h) (observe_all-Counted h bs vs start)

  cumulative_lem :
      (order : IsOrder fl.leq) (values bs : List F)
      → IsSortedDesc (λ a b. fl.leq b a) bs
      → IsCumulative (length values) (map (tally values) bs)
  cumulative_lem order values [] h = tt
  cumulative_lem order values (b ∷ []) h = count-le-length (λ v. fl.leq v b) values
  cumulative_lem order values (b ∷ c ∷ bs) h = (
    count_mono (λ v. fl.leq v b) (λ v. fl.leq v c) values (λ v le. order.trans v b c le h.0),
    cumulative_lem order values (c ∷ bs) h.1,
  )

  -- Where `<=` is a total order: after any observations of a new histogram, the count of each
  -- bucket is the number of observed values up to its bound; the counts grow from bound to bound,
  -- and none passes the number of observations, which is that of the bucket `+Inf`.
  pub observe_all-IsCumulative :
      (order : IsOrder fl.leq) (name help : Text) (buckets values : List F)
      → let h = observe_all values (new_histogram fl show name help buckets) in
        (h.counts ≡ map (tally values) h.buckets)
        × (h.observations ≡ length values)
        × IsCumulative h.observations h.counts
  observe_all-IsCumulative order name help buckets values =
      let start = new_histogram fl show name help buckets in
      let bs = sorted_desc (λ a b. fl.leq b a) buckets in
      let counted = observe_all-Counted start bs values (
        unfold new_histogram in
        record { bounds = refl; counted = zeros_lem bs; observed = refl }) in
      let ascending : IsSortedDesc (λ a b. fl.leq b a) bs =
        sorted_desc-IsSortedDesc (λ a b. fl.leq b a)
          (record {
            total = λ a b h. order.total b a h;
            trans = λ a b c h k. order.trans c b a k h;
          })
          buckets in
      (
        rw (counted.counted, counted.bounds) refl,
        counted.observed,
        rw (counted.observed, counted.counted) (cumulative_lem order values bs ascending),
      )
