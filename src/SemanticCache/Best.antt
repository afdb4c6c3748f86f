-- ===== src/SemanticCache/Best.antt =====
-- `lookup` finds a nearest entry at or above the threshold, and finds one if there is any.
use nexus_ai.Base.{
  ◌≡◌, refl, true, false, Option, none, some, List, [], ◌∷◌, arith, All, ℕ, IsOrder, leq_refl,
  Bool-cases, inl, inr, ◌⊎◌, suc, get_elem?, All-map_imp,
}
use nexus_ai.Base.Float.{FloatOps}
use nexus_ai.Similarity.{cosine}
use nexus_ai.SemanticCache.{SemanticCache, Entry, entries_of, best_from, lookup}

module _ {F V : Type 0} (fl : FloatOps F) (order : IsOrder fl.leq) (query : List F) where
  abbrev pub score_of : Entry F V → F
  score_of entry = cosine fl query entry.vector

  -- `e` is an entry of the list with the value, at or above `floor`, and no entry is nearer.
  abbrev pub IsBest : List (Entry F V) → F → V → Type 0
  IsBest entries floor value =
      (i : ℕ) × (e : Entry F V) × (get_elem? entries i ≡ some e)
      × (e.value ≡ value)
      × (fl.leq floor (score_of e) ≡ true)
      × All (λ x. fl.leq (score_of x) (score_of e) ≡ true) entries

  abbrev pub AllBelow : F → List (Entry F V) → Type 0
  AllBelow floor = All (λ x. fl.leq floor (score_of x) ≡ false)

  below_is_le :
      (e : Entry F V) (rest : List (Entry F V))
      → AllBelow (score_of e) rest
      → All (λ x. fl.leq (score_of x) (score_of e) ≡ true) rest
  below_is_le e rest = All-map_imp (λ x p. order.total (score_of e) (score_of x) p) rest

  best_from_cases :
      (floor : F) (best : Option V) (entries : List (Entry F V)) (v : V)
      → best_from fl query floor best entries ≡ some v
      → ((best ≡ some v) × AllBelow floor entries) ⊎ IsBest entries floor v
  unfolding best_from
  best_from_cases floor best [] v h = inl (h, tt)
  best_from_cases floor best (x ∷ rest) v h = elim (Bool-cases (fl.leq floor (score_of x))) [
    | inl better ↦ elim (best_from_cases (score_of x) (some x.value) rest v (rw better at h)) [
      | inl (same, below) ↦ inr (
        0,
        x,
        refl,
        ground arith,
        better,
        (leq_refl order (score_of x), below_is_le x rest below),
      )
      | inr (i, e, at, same, above, most) ↦ inr (
        suc i,
        e,
        at,
        same,
        order.trans floor (score_of x) (score_of e) better above,
        (above, most),
      )
    ]
    | inr worse ↦ elim (best_from_cases floor best rest v (rw worse at h)) [
      | inl (same, below) ↦ inl (same, (worse, below))
      | inr (i, e, at, same, above, most) ↦ inr (
        suc i,
        e,
        at,
        same,
        above,
        (
          order.trans (score_of x) floor (score_of e) (order.total floor (score_of x) worse) above,
          most,
        ),
      )
    ]
  ]

  best_from-none :
      (floor : F) (best : Option V) (entries : List (Entry F V))
      → best_from fl query floor best entries ≡ none
      → (best ≡ none) × AllBelow floor entries
  unfolding best_from
  best_from-none floor best [] h = (h, tt)
  best_from-none floor best (x ∷ rest) h = elim (Bool-cases (fl.leq floor (score_of x))) [
    | inl better ↦ cc ((best_from-none (score_of x) (some x.value) rest (rw better at h)).0)
    | inr worse ↦
        let (same, below) = best_from-none floor best rest (rw worse at h) in (same, (worse, below))
  ]

  -- Where `<=` is a total order: a hit is the value of a nearest entry of the workspace, at or
  -- above the threshold; a miss means that every entry of the workspace is below it.
  pub lookup-IsBest :
      (cache : SemanticCache F V) (workspace : ℕ) (threshold : F)
      → ((v : V)
          → lookup fl cache workspace query threshold ≡ some v
          → IsBest (entries_of cache workspace) threshold v)
        × (lookup fl cache workspace query threshold ≡ none
            → AllBelow threshold (entries_of cache workspace))
  unfolding lookup
  lookup-IsBest cache workspace threshold = (
    (λ v h. elim (best_from_cases threshold none (entries_of cache workspace) v h) [
      | inl (same, _) ↦ cc
      | inr found ↦ found
    ]),
    λ h. (best_from-none threshold none (entries_of cache workspace) h).1,
  )
