-- ===== src/Ingestion/Embedded.antt =====
-- What the ingestion sends to the embedder, and which records it makes of the answers.
use mathlib.Core.List.{append_assoc}
use nexus_ai.Base.{
  ℕ, zero, suc, ◌≤◌, ◌≡◌, refl, ap, ◌∙◌, List, [], ◌∷◌, ◌++◌, map, take, drop, length, All,
  length-append, length-take-le, length-drop, take-append-drop, Result-cases, ok, ok_same, arith,
  inl, inr, sym,
}
use nexus_ai.Base.Text.{Text}
use nexus_ai.Database.{Chunk}
use nexus_ai.Providers.{EmbeddingProvider}
use nexus_ai.VectorStore.{VectorRecord}
use nexus_ai.Ingestion.{batches, batches_from, record_of, attach, embed_batches}

abbrev pub flatten {ℓ} : {A : Type ℓ} → List (List A) → List A
flatten [] = []
flatten (xs ∷ rest) = xs ++ flatten rest

-- A record for each row, with the vector at its place.
abbrev pub paired : {F : Type 0} → ℕ → List Chunk → List (List F) → List (VectorRecord F)
paired workspace [] vectors = []
paired workspace (row ∷ rows) [] = []
paired workspace (row ∷ rows) (v ∷ vectors) =
    record_of workspace row v ∷ paired workspace rows vectors

abbrev pub IsBatch : ℕ → List Text → Type 0
IsBatch size texts = (1 ≤ length texts) × (length texts ≤ size)

batches_from-flatten :
    (fuel size : ℕ) (items : List Text)
    → length items ≤ fuel
    → (flatten (batches_from fuel (suc size) items) ≡ items)
      × All (IsBatch (suc size)) (batches_from fuel (suc size) items)
unfolding batches_from
batches_from-flatten zero size [] h = (refl, tt)
batches_from-flatten zero size (x ∷ xs) h = absurd (omega arith)
batches_from-flatten (suc fuel) size [] h = (refl, tt)
batches_from-flatten (suc fuel) size (x ∷ xs) h =
    let fits : length (drop size xs) ≤ fuel = omega (arith, length-drop size xs) in
    let (whole, few) = batches_from-flatten fuel size (drop size xs) fits in
    (
      ap (λ rest. x ∷ (take size xs ++ rest)) whole ∙ ap (◌∷◌ x) (take-append-drop size xs),
      ((omega arith, omega (arith, length-take-le size xs)), few),
    )

pub batches-flatten :
    (items : List Text) (size : ℕ) (texts : List (List Text))
    → batches items size ≡ ok texts
    → (flatten texts ≡ items) × All (IsBatch size) texts
unfolding batches
batches-flatten items zero texts h = absurd (ground arith)
batches-flatten items (suc size) texts h =
    rw (← ok_same h) (batches_from-flatten (length items) size items (omega arith))

module _ {F : Type 0} (workspace : ℕ) where
  -- The vectors are for the first rows, one for each, and the records pair them.
  abbrev pub Pairs : List Chunk → List (List F) → List (VectorRecord F) → List Chunk → Type 0
  Pairs rows vectors records rest =
      (used : List Chunk) × (rows ≡ used ++ rest)
      × (length used ≡ length vectors)
      × (records ≡ paired workspace used vectors)

  Pairs-append :
      (rows middle rest : List Chunk) (vs ws : List (List F)) (xs ys : List (VectorRecord F))
      → Pairs rows vs xs middle
      → Pairs middle ws ys rest
      → Pairs rows (vs ++ ws) (xs ++ ys) rest
  Pairs-append rows middle rest vs ws xs ys (used, e, n, p) (later, e', n', p') = (
    used ++ later,
    e ∙ ap (λ r. used ++ r) e' ∙ sym (append_assoc used later rest),
    omega (arith, n, n', length-append used later, length-append vs ws),
    rw (p, p') (paired-append used later vs ws n),
  )
    where
      paired-append :
          (us ls : List Chunk) (vs ws : List (List F))
          → length us ≡ length vs
          → paired workspace us vs ++ paired workspace ls ws
            ≡ paired workspace (us ++ ls) (vs ++ ws)
      paired-append [] ls [] ws n = refl
      paired-append [] ls (v ∷ vs) ws n = absurd (omega arith)
      paired-append (u ∷ us) ls [] ws n = absurd (omega arith)
      paired-append (u ∷ us) ls (v ∷ vs) ws n =
          ap (◌∷◌ (record_of workspace u v)) (paired-append us ls vs ws (omega arith))

  attach-Pairs :
      (rows : List Chunk) (vectors : List (List F)) (records : List (VectorRecord F))
      (rest : List Chunk)
      → attach workspace rows vectors ≡ ok (records, rest)
      → Pairs rows vectors records rest
  unfolding attach
  attach-Pairs rows [] records rest h = ([], ground arith, refl, ground arith)
  attach-Pairs [] (v ∷ vs) records rest h = absurd (ground arith)
  attach-Pairs (r ∷ rows) (v ∷ vs) records rest h = elim (Result-cases (attach workspace rows vs)) [
    | inr (e, bad) ↦ absurd (ground arith)
    | inl ((found, left), e) ↦
        let (used, split, n, p) = attach-Pairs rows vs found left e in
        let same : left ≡ rest = ground arith in
        let grown : record_of workspace r v ∷ found ≡ records = ground arith in
        (
          r ∷ used,
          ap (◌∷◌ r) (split ∙ ap (λ l. used ++ l) same),
          omega (arith, n),
          sym grown ∙ ap (◌∷◌ (record_of workspace r v)) p,
        )
  ]

  -- The embedder answered every batch, and the records pair the vectors of all answers, in order,
  -- with the first rows.
  abbrev pub IsEmbedded :
      EmbeddingProvider F → List Chunk → List (List Text) → List (VectorRecord F) → Type 0
  IsEmbedded embedder rows texts records =
      (answers : List (List (List F))) × (rest : List Chunk) × (map embedder.embed texts
        ≡ map ok answers)
      × Pairs rows (flatten answers) records rest

  pub embed_batches-IsEmbedded :
      (embedder : EmbeddingProvider F) (rows : List Chunk) (texts : List (List Text))
      (records : List (VectorRecord F))
      → embed_batches embedder workspace rows texts ≡ ok records
      → IsEmbedded embedder rows texts records
  unfolding embed_batches
  embed_batches-IsEmbedded embedder rows [] records h =
      ([], rows, refl, ([], refl, refl, sym (ok_same h)))
  embed_batches-IsEmbedded embedder rows (b ∷ bs) records h =
      elim (Result-cases (embedder.embed b)) [
        | inr (e, bad) ↦ absurd (ground arith)
        | inl (vectors, answered) ↦ elim (Result-cases (attach workspace rows vectors)) [
          | inr (e, bad) ↦ absurd (ground arith)
          | inl ((found, middle), attached) ↦
              elim (Result-cases (embed_batches embedder workspace middle bs)) [
                | inr (e, bad) ↦ absurd (ground arith)
                | inl (later, made) ↦
                    let (answers, rest, all, pairs) =
                      embed_batches-IsEmbedded embedder middle bs later made in
                    let same : found ++ later ≡ records = ground arith in
                    (
                      vectors ∷ answers,
                      rest,
                      rw (answered, all) refl,
                      rw (← same) (
                          Pairs-append rows middle rest vectors (flatten answers) found later
                            (attach-Pairs rows vectors found middle attached) pairs),
                    )
              ]
        ]
      ]
