-- ===== src/Auth/Rotation.antt =====
-- Rotation and logout: a refresh token that was exchanged or revoked is refused from then on.
use nexus_ai.Base.{
  ℕ, ◌≡◌, refl, sym, subst, none, some, List, find?, find?-sound, any, arith, ok, err,
  invalid_credentials, Option-cases, Bool-cases, inl, inr, ◌⊎◌, Result-cases,
}
use nexus_ai.Base.Text.{Text}
use nexus_ai.Config.{Settings}
use nexus_ai.Database.{Db, RefreshToken}
use nexus_ai.Auth.Revocation.{
  IsRevoked, Call, after_calls, find?-revoke_self, IsRevoked-append, after_calls-IsRevoked,
}
use nexus_ai.Auth.Primitives.{Crypto, IsCrypto}
use nexus_ai.Auth.{
  TokenResponse, is_token, revoke_rows, get_active, decode_refresh, check_refresh, issue_tokens,
  refresh, logout,
}

module _ {F : Type 0} (crypto : Crypto) (settings : Settings F) where
  -- A token that was read once is read the same way later, or not at all.
  decode_refresh_later :
      (laws : IsCrypto crypto) (token : Text) (p : ℕ × ℕ) (now later : ℕ)
      → decode_refresh crypto now token ≡ ok p
      → (decode_refresh crypto later token ≡ err invalid_credentials)
        ⊎ (decode_refresh crypto later token ≡ ok p)
  unfolding decode_refresh
  decode_refresh_later laws token p now later h = elim (Option-cases (crypto.decode now token)) [
    | inl bad ↦ absurd (ground arith)
    | inr (x, e) ↦ elim (Option-cases (crypto.decode later token)) [
      | inl late ↦ inl (ground arith)
      | inr (y, e') ↦ let same = laws.decode_stable token x y now later e e' in inr (ground arith)
    ]
  ]

  get_active-row :
      (db : Db F) (now j : ℕ) (t : RefreshToken)
      → get_active db now j ≡ some t
      → (find? (is_token j) db.refresh_tokens ≡ some t) × (t.jti ≡ j)
  unfolding get_active
  get_active-row db now j t h = elim (Option-cases (find? (is_token j) db.refresh_tokens)) [
    | inl gone ↦ absurd (ground arith)
    | inr (x, e) ↦ (ground arith, ground (arith, find?-sound (is_token j) db.refresh_tokens x e))
  ]

  get_active-IsRevoked :
      (db : Db F) (now j : ℕ) → IsRevoked j db.refresh_tokens → get_active db now j ≡ none
  unfolding get_active
  get_active-IsRevoked db now j (t, h, r) = rw h (ground arith)

  -- The token is refused by both calls that take it.
  abbrev pub IsRefused : Text → Db F → Type 0
  IsRefused token db =
      (now jti : ℕ)
      → (refresh crypto settings now jti token db ≡ (err invalid_credentials, db))
        × (logout crypto now token db ≡ (err invalid_credentials, db))

  refused :
      (laws : IsCrypto crypto) (token : Text) (subject j once : ℕ) (db : Db F)
      → decode_refresh crypto once token ≡ ok (subject, j)
      → IsRevoked j db.refresh_tokens
      → IsRefused token db
  unfolding refresh logout check_refresh
  refused laws token subject j once db read gone now jti =
      elim (decode_refresh_later laws token (subject, j) once now read) [
        | inl late ↦ (ground arith, ground arith)
        | inr same ↦ (
          ground (arith, get_active-IsRevoked db now j gone),
          ground (arith, get_active-IsRevoked db now j gone),
        )
      ]

  check_refresh-row :
      (now : ℕ) (token : Text) (db : Db F) (user old : ℕ)
      → check_refresh crypto now token db ≡ ok (user, old)
      → (subject : ℕ) × (t : RefreshToken) × (decode_refresh crypto now token ≡ ok (subject, old))
        × (find? (is_token old) db.refresh_tokens ≡ some t)
  unfolding check_refresh
  check_refresh-row now token db user old h =
      elim (Result-cases (decode_refresh crypto now token)) [
        | inr (x, e) ↦ absurd (ground arith)
        | inl ((subject, j), e) ↦ elim (Option-cases (get_active db now j)) [
          | inl gone ↦ absurd (ground arith)
          | inr (t, found) ↦
              let (row, same) = get_active-row db now j t found in
              let old_eq : old ≡ j = ground arith in (subject, t, rw old_eq e, rw old_eq row)
        ]
      ]

  -- Under the laws of `IsCrypto`, a refresh token that was exchanged once is refused from then on,
  -- by `refresh` and by `logout`, at any time and after any further calls of the service.
  pub refresh_once :
      (laws : IsCrypto crypto) (now jti : ℕ) (token : Text) (db : Db F) (tokens : TokenResponse)
      → (refresh crypto settings now jti token db).0 ≡ ok tokens
      → (cs : List Call)
      → IsRefused token
          (after_calls crypto settings cs (refresh crypto settings now jti token db).1)
  unfolding refresh issue_tokens
  refresh_once laws now jti token db tokens h cs =
      elim (Result-cases (check_refresh crypto now token db)) [
        | inr (x, e) ↦ absurd (ground arith)
        | inl ((user, old), e) ↦
            let (subject, t, read, row) = check_refresh-row now token db user old e in
            let rows = revoke_rows now old db.refresh_tokens in
            let revoked : IsRevoked old rows = (
              record t { revoked_at = some now },
              find?-revoke_self now old db.refresh_tokens t row,
              refl,
            ) in
            elim (Bool-cases (any (is_token jti) rows)) [
              | inl taken ↦ absurd (ground arith)
              | inr free ↦ refused laws token subject old now _ read (
                  after_calls-IsRevoked crypto settings cs _ old
                    (rw (e, refresh, free) (IsRevoked-append old rows _ revoked)))
            ]
      ]

  -- Under the laws of `IsCrypto`, a refresh token that was revoked by `logout` is refused from then
  -- on, by `refresh` and by `logout`, at any time and after any further calls of the service.
  pub logout_once :
      (laws : IsCrypto crypto) (now : ℕ) (token : Text) (db : Db F)
      → (logout crypto now token db).0 ≡ ok tt
      → (cs : List Call)
      → IsRefused token (after_calls crypto settings cs (logout crypto now token db).1)
  unfolding logout
  logout_once laws now token db h cs = elim (Result-cases (decode_refresh crypto now token)) [
    | inr (x, e) ↦ absurd (ground arith)
    | inl ((subject, j), e) ↦ elim (Option-cases (get_active db now j)) [
      | inl gone ↦ absurd (ground arith)
      | inr (t, found) ↦
          let (row, same) = get_active-row db now j t found in
          let revoked : IsRevoked j (revoke_rows now t.jti db.refresh_tokens) = (
            record t { revoked_at = some now },
            subst
                (λ k.
                  find? (is_token j) (revoke_rows now k db.refresh_tokens)
                  ≡ some (record t { revoked_at = some now }))
                (sym same) (find?-revoke_self now j db.refresh_tokens t row),
            refl,
          ) in
          refused laws token subject j now _ e
            (after_calls-IsRevoked crypto settings cs _ j (rw (e, found, logout) revoked))
    ]
  ]
