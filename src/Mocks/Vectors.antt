-- ===== src/Mocks/Vectors.antt =====
-- The mock embeddings have the dimension that the provider names.
use nexus_ai.Base.{
  ℕ, zero, suc, ◌%◌, ◌≤◌, ◌≡◌, refl, ap, ◌∙◌, false, some, List, [], ◌∷◌, All, take, length,
  length-map, get_elem?, nat_beq, Result, ok, Bool-cases, inl, inr, arith,
}
use nexus_ai.Base.Float.{FloatOps}
use nexus_ai.Base.Text.{Text, words}
use nexus_ai.Providers.{Platform}
use nexus_ai.Similarity.{norm}
use nexus_ai.Mocks.{
  add_at, zeros, sign_of, from_bytes, add_tokens, normalised, embed_one, embed_all, mock_embedder,
}

-- A list that is long enough has an element at the place.
get_elem?-some :
    {A : Type 0} (xs : List A) (i : ℕ) → suc i ≤ length xs → (x : A) × (get_elem? xs i ≡ some x)
get_elem?-some [] i h = absurd (omega arith)
get_elem?-some (x ∷ xs) zero h = (x, refl)
get_elem?-some (x ∷ xs) (suc i) h = get_elem?-some xs i (omega arith)

module _ {F : Type 0} (fl : FloatOps F) where
  length-add_at :
      (index : ℕ) (amount : F) (xs : List F) → length (add_at fl index amount xs) ≡ length xs
  unfolding add_at
  length-add_at index amount [] = refl
  length-add_at zero amount (x ∷ xs) = refl
  length-add_at (suc index) amount (x ∷ xs) = ap suc (length-add_at index amount xs)

  length-zeros : (n : ℕ) → length (zeros fl n) ≡ n
  length-zeros zero = refl
  length-zeros (suc n) = ap suc (length-zeros n)

  sign_of-ok : (digest : List ℕ) → length digest ≡ 16 → (x : F) × (sign_of fl digest ≡ ok x)
  unfolding sign_of
  sign_of-ok digest h =
      let (b, is) = get_elem?-some digest 4 (omega (arith, h)) in rw (sign_of, is) (_, refl)

  module _ (md5 : Text → List ℕ) (dimension : ℕ) (digests : (t : Text) → length (md5 t) ≡ 16)
      (positive : 1 ≤ dimension) where
    abbrev IsVector : Result (List F) → Type 0
    IsVector r = (v : List F) × (r ≡ ok v) × (length v ≡ dimension)

    add_tokens-IsVector :
        (ts : List Text) (vector : List F)
        → length vector ≡ dimension
        → IsVector (add_tokens fl md5 dimension ts vector)
    unfolding add_tokens
    add_tokens-IsVector [] vector h = (vector, refl, h)
    add_tokens-IsVector (t ∷ ts) vector h =
        let (sign, is) = sign_of-ok (md5 t) (digests t) in
        let index = from_bytes 0 (take 4 (md5 t)) % dimension in
        let positive' : nat_beq dimension 0 ≡ false = ground arith in
        rw (positive', is)
          (add_tokens-IsVector ts (add_at fl index sign vector)
            (length-add_at index sign vector ∙ h))

    normalised-length :
        (vector : List F) → length (normalised fl md5 dimension vector) ≡ length vector
    normalised-length vector = elim (Bool-cases (fl.is_zero (norm fl vector))) [
      | inl flat ↦ rw flat refl
      | inr long ↦ rw long (length-map (λ value. fl.div value (norm fl vector)) vector)
    ]

    embed_one-IsVector :
        (platform : Platform) (text : Text) → IsVector (embed_one fl md5 dimension platform text)
    unfolding embed_one
    embed_one-IsVector platform text =
        let (v, is, long) =
          add_tokens-IsVector (words (platform.lower text)) (zeros fl dimension)
            (length-zeros dimension) in
        rw is (_, refl, normalised-length v ∙ long)

    -- Where an MD5 digest has 16 bytes and the dimension is at least 1: the mock embedder never
    -- raises, and returns as many vectors as texts, each of the dimension that it names.
    pub mock_embedder-regular :
        (platform : Platform) (model : Text) (texts : List Text)
        → let provider = mock_embedder fl md5 dimension platform model in
          (vs : List (List F)) × (provider.embed texts ≡ ok vs)
          × (length vs ≡ length texts)
          × All (λ v. length v ≡ provider.dimension) vs
    unfolding mock_embedder embed_all
    mock_embedder-regular platform model [] = ([], refl, refl, tt)
    mock_embedder-regular platform model (t ∷ ts) =
        let (v, is, long) = embed_one-IsVector platform t in
        let (vs, are, same, all) = mock_embedder-regular platform model ts in
        rw (is, are) (v ∷ vs, refl, ap suc same, (long, all))
