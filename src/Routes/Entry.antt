-- ===== src/Routes/Entry.antt =====
-- app/api/deps.py: whom an endpoint lets in.
use nexus_ai.Base.{
  ℕ, ◌≡◌, refl, true, ◌⊎◌, inl, inr, some, Error, ok, err, value_error, http_exception, Exec,
  Result-cases, Option-cases, Bool-cases, Option, none, Result, subst, ◌&&◌, arith, nat_eq,
}
use nexus_ai.Base.Text.{Text, codes}
use nexus_ai.Database.{Db, User}
use nexus_ai.Auth.{get_by_id, get_current_user, has_type, truthy, text_or_empty}
use nexus_ai.Auth.Primitives.{Claims, Crypto}
use nexus_ai.Ingestion.{rollback}
use nexus_ai.Process.{Process, in_request}
use nexus_ai.Routes.{as_user}

-- What makes a token a valid access token of an active user.
pub record Grants {F : Type 0} (crypto : Crypto) (now : ℕ) (token : Text) (db : Db F) (user : User)
    : Type 0 where
  pub claims : Claims
  pub signed : crypto.decode now token ≡ some claims
  pub for_access : has_type (codes "access") claims.kind ≡ true
  pub named : truthy claims.sub ≡ true
  pub id : ℕ
  pub parsed : crypto.parse_uuid (text_or_empty claims.sub) ≡ some id
  pub stored : get_by_id db id ≡ some user
  pub active : user.is_active ≡ true

module _ {F : Type 0} (crypto : Crypto) (now : ℕ) (token : Text) (db : Db F) where
  get_current_user-granted :
      (user : User)
      → get_current_user crypto now token db ≡ ok user
      → Grants crypto now token db user
  unfolding get_current_user
  get_current_user-granted user h = elim (Option-cases (crypto.decode now token)) [
    | inl bad ↦ absurd (ground arith)
    | inr (x, signed) ↦ elim (Option-cases (crypto.parse_uuid (text_or_empty x.sub))) [
      | inl odd ↦ absurd (ground arith)
      | inr (i, parsed) ↦ elim (Option-cases (get_by_id db i)) [
        | inl nobody ↦ absurd (ground arith)
        | inr (u, stored) ↦
            let same : u ≡ user = ground arith in
            record {
              claims = x;
              signed = signed;
              for_access = ground arith;
              named = ground arith;
              id = i;
              parsed = parsed;
              stored = rw (← same) stored;
              active = ground arith;
            }
      ]
    ]
  ]

  granted-get_current_user :
      (user : User)
      → Grants crypto now token db user
      → get_current_user crypto now token db ≡ ok user
  unfolding get_current_user
  granted-get_current_user user g =
      ground (arith, g.signed, g.for_access, g.named, g.parsed, g.stored, g.active)

  -- The 401 of a token that is not good, or the `ValueError` of a subject that is no UUID.
  abbrev pub IsDenied : Error → Type 0
  IsDenied e =
      (e ≡ http_exception 401)
      ⊎ ((e ≡ value_error)
          × (claims : Claims) × (crypto.decode now token ≡ some claims)
          × (crypto.parse_uuid (text_or_empty claims.sub) ≡ none))

  get_current_user-IsDenied :
      (e : Error) → get_current_user crypto now token db ≡ err e → IsDenied e
  unfolding get_current_user
  get_current_user-IsDenied e h = elim (Option-cases (crypto.decode now token)) [
    | inl bad ↦ inl (ground arith)
    | inr (x, signed) ↦ elim (Bool-cases (has_type (codes "access") x.kind && truthy x.sub)) [
      | inr odd ↦ inl (ground arith)
      | inl named ↦ elim (Option-cases (crypto.parse_uuid (text_or_empty x.sub))) [
        | inl odd ↦ inr (ground arith, x, signed, odd)
        | inr (i, parsed) ↦ elim (Option-cases (get_by_id db i)) [
          | inl nobody ↦ inl (ground arith)
          | inr (u, stored) ↦ inl (ground arith)
        ]
      ]
    ]
  ]

module _ {F : Type 0} (crypto : Crypto) (bearer : Option Text → Result Text) (now : ℕ)
    (header : Option Text) where
  -- The header carries a valid access token of the user.
  abbrev pub Admits : Db F → User → Type 0
  Admits db user = (token : Text) × (bearer header ≡ ok token) × Grants crypto now token db user

  -- What a request without such a token ends with: the exception that FastAPI raises for a header
  -- without credentials, or what the token in it is denied for.
  abbrev pub IsRefusal : Db F → Error → Type 0
  IsRefusal db e =
      (bearer header ≡ err e)
      ⊎ ((token : Text) × (bearer header ≡ ok token) × IsDenied crypto now token db e)

  -- An endpoint for a user runs for the user of a valid access token in the header, if the user is
  -- active and not deleted. For any other request nothing is kept, and it ends with the exception
  -- that FastAPI raises if the header has no credentials, with the status 401, or with the
  -- ValueError of a subject that is no UUID.
  pub as_user-granted :
      {S A : Type 0} (handler : User → Exec (Process F S) A) (p : Process F S)
      → ((user : User) × Admits p.world.session user
          × (as_user crypto bearer now header handler p ≡ in_request (handler user) p))
        ⊎ ((¬ ((user : User) × Admits p.world.session user))
            × (e : Error) × IsRefusal p.world.session e
            × (as_user crypto bearer now header handler p
                ≡ (err e, record p { world = rollback p.world })))
  unfolding as_user in_request
  as_user-granted handler p =
      let db = p.world.session in
      elim (Result-cases (bearer header)) [
        | inr (error, none') ↦ inr ((λ g. ground arith), error, inl none', rw none' refl)
        | inl (token, given) ↦ elim (Result-cases (get_current_user crypto now token db)) [
          | inl (user, e) ↦ inl (
            user,
            (token, given, get_current_user-granted crypto now token db user e),
            rw (given, e) refl,
          )
          | inr (error, e) ↦ inr (
            (λ g.
                let same : g.1.0 ≡ token = ground arith in
                let granted = subst (λ t. Grants crypto now t db g.0) same g.1.2 in
                let found = granted-get_current_user crypto now token db g.0 granted in
                ground arith),
            error,
            inr (token, given, get_current_user-IsDenied crypto now token db error e),
            rw (given, e) refl,
          )
        ]
      ]
