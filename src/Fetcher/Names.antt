-- ===== src/Fetcher/Names.antt =====
-- What a fetched document is: nonempty, not too long, and one that an extractor reads.
use nexus_ai.Base.{
  ℕ, true, false, ◌||◌, ◌≤◌, ◌≡◌, refl, Option, none, some, [], ◌∷◌, ◌++◌, All, length, is_some,
  ltb, nat_beq, list_eq, nat_eq, Result, ok, err, Error, url_fetch_error, Result-cases,
  Option-cases, Bool-cases, inl, inr, ◌⊎◌, arith, and_then, ap, ◌∙◌, ok_same, subst, and_then-ok,
}
use nexus_ai.Base.Dict
use nexus_ai.Base.Dict.{Dict}
use nexus_ai.Base.Text.{Text}
use nexus_ai.Config.{Settings}
use nexus_ai.Providers.{EmbeddingProvider, Platform}
use nexus_ai.VectorStore.{VectorStore}
use nexus_ai.Extractors.{Readers, ext_of, extractors, after_dot}
use nexus_ai.Ingestion.{World, rollback}
use nexus_ai.Documents.{require_membership, create_document}
use nexus_ai.Fetcher.{
  Network, Url, Reply, Response, response, http_error, raised, FetchedDocument, content_type_ext,
  stem_of, is_supported, media_type, name_from, resolve_filename, accept, receive, is_allowed,
  fetch_url, create_document_from_url,
}

after_dot-append : (s e : Text) → after_dot e ≡ none → after_dot (s ++ 46 ∷ e) ≡ some e
unfolding after_dot
after_dot-append [] e h = ground (arith, h)
after_dot-append (c ∷ s) e h = ground (arith, after_dot-append s e h)

in_bounds : (n most : ℕ) → (nat_beq n 0 || ltb most n) ≡ false → (1 ≤ n) × (n ≤ most)
in_bounds n most e = (ground arith, ground arith)

module _ {F : Type 0} (readers : Readers) (network : Network F) where
  -- The extensions of the content types are lower case already.
  abbrev pub IsLowered : Type 0
  IsLowered = All (λ e. readers.lower e ≡ e) (Dict.values content_type_ext)

  abbrev IsMapped : Text → Type 0
  IsMapped e =
      (after_dot e ≡ none)
      × (readers.lower e ≡ e)
      × (is_some (Dict.lookup e (extractors readers)) ≡ true)

  content_type_ext-IsMapped : IsLowered → All IsMapped (Dict.values content_type_ext)
  unfolding after_dot Dict.lookup
  content_type_ext-IsMapped (a, (b, (c, (d, (e, (f, (g, (h, u)))))))) = (
    (refl, a, refl),
    (
      (refl, b, refl),
      (
        (refl, c, refl),
        (
          (refl, d, refl),
          ((refl, e, refl), ((refl, f, refl), ((refl, g, refl), ((refl, h, refl), tt)))),
        ),
      ),
    ),
  )

  mapped-is_supported :
      (s e : Text) → IsMapped e → is_supported readers network (s ++ 46 ∷ e) ≡ true
  unfolding is_supported ext_of
  mapped-is_supported s e (no_dot, lowered, known) =
      let ext : ext_of readers (s ++ 46 ∷ e) ≡ e =
        ap (λ found. elim found [ none ↦ [] | some t ↦ readers.lower t ])
          (after_dot-append s e no_dot)
        ∙ lowered in
      ap (λ t. is_some (Dict.lookup t (extractors readers))) ext ∙ known

  name_from-is_supported :
      (url : Url) (content_type name : Text)
      → IsLowered
      → name_from readers network url content_type ≡ ok name
      → is_supported readers network name ≡ true
  unfolding name_from
  name_from-is_supported url content_type name lowered e =
      let base = network.unquote (network.basename url.path) in
      elim (Bool-cases (is_supported readers network base)) [
        | inl supported ↦
            let same : ◌≡◌ {A = Result Text} (ok base) (ok name) = rw supported at e in
            subst (λ t. is_supported readers network t ≡ true) (ok_same same) supported
        | inr other ↦
            elim (Option-cases
              (Dict.lookup (media_type readers network content_type) content_type_ext)) [
                | inl unknown ↦ absurd (ground arith)
                | inr (mapped, known) ↦
                    let same : ◌≡◌ {A = Result Text} (ok (stem_of base url ++ 46 ∷ mapped))
                        (ok name) =
                      ground arith in
                    subst (λ t. is_supported readers network t ≡ true) (ok_same same)
                      (mapped-is_supported (stem_of base url) mapped (
                        Dict.All-lookup IsMapped (media_type readers network content_type) mapped
                          content_type_ext known (content_type_ext-IsMapped lowered)))
              ]
      ]

  found_name-is_supported :
      (url content_type name : Text)
      → IsLowered
      → and_then (network.urlparse url) (λ parsed. name_from readers network parsed content_type)
        ≡ ok name
      → is_supported readers network name ≡ true
  found_name-is_supported url content_type name lowered e =
      let (parsed, is, named) = and_then-ok (network.urlparse url) _ name e in
      name_from-is_supported parsed content_type name lowered named

  resolve_filename-is_supported :
      (url content_type name : Text) (filename : Option Text)
      → IsLowered
      → resolve_filename readers network url content_type filename ≡ ok name
      → is_supported readers network name ≡ true
  unfolding resolve_filename
  resolve_filename-is_supported url content_type name none lowered e =
      found_name-is_supported url content_type name lowered e
  resolve_filename-is_supported url content_type name (some []) lowered e =
      found_name-is_supported url content_type name lowered e
  resolve_filename-is_supported url content_type name (some (c ∷ s)) lowered e =
      elim (Bool-cases (is_supported readers network (c ∷ s))) [
        | inl supported ↦
            let same : ◌≡◌ {A = Result Text} (ok (c ∷ s)) (ok name) = rw supported at e in
            subst (λ t. is_supported readers network t ≡ true) (ok_same same) supported
        | inr other ↦
            let bad : ◌≡◌ {A = Result Text} (err url_fetch_error) (ok name) = rw other at e in
            absurd (ground arith)
      ]

  -- An http(s) resource that is not empty, not too long, and has an extension that is read.
  abbrev pub IsFetched : Text → ℕ → FetchedDocument → Type 0
  IsFetched url max_bytes d =
      ((parsed : Url) × (network.urlparse url ≡ ok parsed)
        × (is_allowed readers network parsed ≡ true))
      × (1 ≤ length d.content)
      × (length d.content ≤ max_bytes)
      × (is_supported readers network d.filename ≡ true)

  accept-IsGood :
      (url : Text) (max_bytes : ℕ) (filename : Option Text) (answer : Response)
      (d : FetchedDocument)
      → IsLowered
      → accept readers network max_bytes url filename answer ≡ ok d
      → (1 ≤ length d.content)
        × (length d.content ≤ max_bytes)
        × (is_supported readers network d.filename ≡ true)
  unfolding accept
  accept-IsGood url max_bytes filename answer d lowered e =
      elim (Bool-cases
        (nat_beq (length answer.content) 0 || ltb max_bytes (length answer.content))) [
          | inl bad ↦
              let wrong : ◌≡◌ {A = Result FetchedDocument} (err url_fetch_error) (ok d) =
                rw bad at e in
              absurd (ground arith)
          | inr good ↦
              let (name, named, made) =
                and_then-ok (resolve_filename readers network url answer.content_type filename) _ d
                  (rw good at e) in
              let same : ◌≡◌ {A = FetchedDocument} _ d = ok_same made in
              let content : answer.content ≡ d.content = ap (λ x. x.content) same in
              let called : name ≡ d.filename = ap (λ x. x.filename) same in
              let (some_bytes, fits) = in_bounds (length answer.content) max_bytes good in
              rw (← content, ← called)
                (
                  some_bytes,
                  fits,
                  resolve_filename-is_supported url answer.content_type name filename lowered named,
                )
        ]

  receive-IsGood :
      (url : Text) (max_bytes : ℕ) (filename : Option Text) (reply : Reply) (d : FetchedDocument)
      → IsLowered
      → receive readers network max_bytes url filename reply ≡ ok d
      → (1 ≤ length d.content)
        × (length d.content ≤ max_bytes)
        × (is_supported readers network d.filename ≡ true)
  receive-IsGood url max_bytes filename (response answer) d lowered e =
      accept-IsGood url max_bytes filename answer d lowered e
  receive-IsGood url max_bytes filename http_error d lowered e = absurd (ground arith)
  receive-IsGood url max_bytes filename (raised x) d lowered e = absurd (ground arith)

  fetch_url-IsFetched :
      (url : Text) (timeout : F) (max_bytes : ℕ) (filename : Option Text) (d : FetchedDocument)
      → IsLowered
      → fetch_url readers network url timeout max_bytes filename ≡ ok d
      → IsFetched url max_bytes d
  unfolding fetch_url
  fetch_url-IsFetched url timeout max_bytes filename d lowered e =
      let (parsed, is, rest) = and_then-ok (network.urlparse url) _ d e in
      elim (Bool-cases (is_allowed readers network parsed)) [
        | inl allowed ↦
            let (some_bytes, fits, supported) =
              receive-IsGood url max_bytes filename (network.get timeout url) d lowered
                (rw allowed at rest) in
            ((parsed, is, allowed), some_bytes, fits, supported)
        | inr other ↦
            let bad : ◌≡◌ {A = Result FetchedDocument} (err url_fetch_error) (ok d) =
              rw other at rest in
            absurd (ground arith)
      ]

module _ {F S : Type 0} (platform : Platform) (readers : Readers) (draw : ℕ → ℕ)
    (settings : Settings F) (embedder : EmbeddingProvider F) (store : VectorStore F S)
    (network : Network F) where
  -- Where `str.lower` keeps the extensions of the content types: ingesting a URL ends in one of
  -- three ways. The user is no member of the workspace, and the request fails without regard to
  -- the URL; or the download fails with its error; in both cases nothing is stored. Or the
  -- download is an http(s) resource that is not empty, within the upload limit, and has an
  -- extension that an extractor reads, and the outcome is that of creating a document of it.
  pub create_document_from_url-checked :
      (new_id workspace user : ℕ) (url : Text) (filename : Option Text) (w : World F S)
      → IsLowered readers network
      → let r =
          create_document_from_url platform readers draw settings embedder store network new_id
            workspace user url filename w in
        let fetched =
          fetch_url readers network url settings.url_fetch_timeout_seconds settings.max_upload_bytes
            filename in
        ((e : Error) × (require_membership w.session workspace user ≡ err e)
          × (r ≡ (err e, rollback w)))
        ⊎ ((e : Error) × (require_membership w.session workspace user ≡ ok tt)
            × (fetched ≡ err e)
            × (r ≡ (err e, rollback w)))
        ⊎ ((d : FetchedDocument) × (require_membership w.session workspace user ≡ ok tt)
            × (fetched ≡ ok d)
            × IsFetched readers network url settings.max_upload_bytes d
            × (r
                ≡ create_document platform readers draw settings embedder store new_id workspace
                    user d.filename d.content_type d.content w))
  unfolding create_document_from_url
  create_document_from_url-checked new_id workspace user url filename w lowered =
      elim (Result-cases (require_membership w.session workspace user)) [
        | inr (e, stranger) ↦ inl (e, stranger, rw (create_document_from_url, stranger) refl)
        | inl (u, member) ↦
            elim (Result-cases (
              fetch_url readers network url settings.url_fetch_timeout_seconds
                settings.max_upload_bytes filename)) [
                  | inr (e, failed) ↦
                      inr (
                        inl (e, member, failed, rw (create_document_from_url, member, failed) refl))
                  | inl (d, fetched) ↦ inr (
                      inr (
                        d,
                        member,
                        fetched,
                        fetch_url-IsFetched readers network url settings.url_fetch_timeout_seconds
                            settings.max_upload_bytes filename d lowered fetched,
                        rw (create_document_from_url, member, fetched) refl,
                      ))
                ]
      ]
