-- ===== src/Auth.antt =====
-- app/services/auth_service.py, token_service.py and user_service.py, app/core/security.py and
-- app/api/deps.py: accounts, and refresh tokens that are tracked by their `jti`. JWT, Argon2 and
-- `uuid` are libraries, and parameters. Times are in seconds. A call that raises has written
-- nothing, as the request's session is rolled back.
pub mod Primitives
pub mod Revocation
pub mod Rotation
pub mod Sessions
use nexus_ai.Base.{
  ℕ, ◌+◌, ◌*◌, Bool, true, false, ◌&&◌, ◌||◌, not, Option, none, some, List, [], ◌∷◌, ◌++◌, map,
  if◌then◌else◌, find?, any, is_some, nat_beq, leb, Exec, Result, ok, err, and_then, Error,
  invalid_credentials, email_already_exists, integrity_error, value_error, http_exception, list_beq,
  nat_eq, Option-cases,
}
use nexus_ai.Base.Text.{Text, codes}
use nexus_ai.Config.{Settings}
use nexus_ai.Database.{Db, User, RefreshToken}
use nexus_ai.Auth.Primitives.{Claims, Crypto}

-- Without the constant `token_type`.
pub record TokenResponse : Type 0 where
  pub access_token : Text
  pub refresh_token : Text

abbrev pub is_token : ℕ → RefreshToken → Bool
is_token jti t = nat_beq t.jti jti

-- `token.revoked_at = datetime.now(UTC)`
unfoldable pub revoke_rows : ℕ → ℕ → List RefreshToken → List RefreshToken
revoke_rows now jti [] = []
revoke_rows now jti (t ∷ ts) =
    let rest = revoke_rows now jti ts in
    if is_token jti t then record t { revoked_at = some now } ∷ rest else t ∷ rest

-- Python's truth of a claim that may be missing.
abbrev pub truthy : Option Text → Bool
truthy none = false
truthy (some []) = false
truthy (some (c ∷ s)) = true

abbrev pub text_or_empty : Option Text → Text
text_or_empty none = []
text_or_empty (some s) = s

-- `payload.get("type") != kind`, the other way round
abbrev pub has_type : Text → Option Text → Bool
has_type kind none = false
has_type kind (some t) = list_beq t kind

-- `get_active` from the row that the query gave on.
unfoldable pub active_row : ℕ → Option RefreshToken → Option RefreshToken
active_row now none = none
active_row now (some t) =
    if is_some t.revoked_at then none else if leb t.expires_at now then none else some t

abbrev pub parsed_pair : Option ℕ → Option ℕ → Result (ℕ × ℕ)
parsed_pair (some subject) (some jti) = ok (subject, jti)
parsed_pair _ none = err invalid_credentials
parsed_pair none (some jti) = err invalid_credentials

-- `_decode_refresh`: the subject and the `jti`.
unfoldable pub decode_refresh : Crypto → ℕ → Text → Result (ℕ × ℕ)
decode_refresh crypto now token = elim (crypto.decode now token) [
  | none ↦ err invalid_credentials
  | some payload ↦
      if not (has_type (codes "refresh") payload.kind)
      then err invalid_credentials
      else if not (truthy payload.sub) || not (truthy payload.jti)
      then err invalid_credentials
      else parsed_pair (crypto.parse_uuid (text_or_empty payload.sub))
          (crypto.parse_uuid (text_or_empty payload.jti))
]

module _ {F : Type 0} where
  unfoldable pub get_by_email : Db F → Text → Option User
  get_by_email db email = find? (λ u. list_beq u.email email && not (is_some u.deleted_at)) db.users

  unfoldable pub get_by_id : Db F → ℕ → Option User
  get_by_id db id = find? (λ u. nat_beq u.id id && not (is_some u.deleted_at)) db.users

  unfoldable pub get_active : Db F → ℕ → ℕ → Option RefreshToken
  unfolding active_row
  get_active db now jti = active_row now (find? (is_token jti) db.refresh_tokens)

  module _ (crypto : Crypto) where
    -- `salt` is the random salt of the hash, `new_id` the `uuid4` of the row. The commit checks the
    -- unique constraint on the email, deleted users included.
    unfoldable pub register : ℕ → ℕ → Text → Text → Option Text → Exec (Db F) User
    unfolding get_by_email
    register salt new_id email password full_name db =
        let user : User = record {
          id = new_id;
          email = email;
          hashed_password = crypto.hash salt password;
          full_name = full_name;
          is_active = true;
          deleted_at = none;
        } in
        if is_some (get_by_email db email)
        then (err (email_already_exists email), db)
        else if any (λ u. list_beq u.email email) db.users
        then (err integrity_error, db)
        else (ok user, record db { users = db.users ++ user ∷ [] })

    unfoldable pub authenticate : Db F → Text → Text → Result User
    unfolding get_by_email
    authenticate db email password = elim (get_by_email db email) [
      | none ↦ err invalid_credentials
      | some user ↦
          if not user.is_active
          then err invalid_credentials
          else if not (crypto.verify password user.hashed_password)
          then err invalid_credentials
          else ok user
    ]

    unfoldable pub create_access_token : Settings F → ℕ → Text → Text
    create_access_token settings now subject = crypto.encode (record {
      sub = some subject;
      kind = some (codes "access");
      iat = now;
      exp = now + settings.access_token_expire_minutes * 60;
      jti = none;
    })

    unfoldable pub create_refresh_token : Settings F → ℕ → Text → Text → Text
    create_refresh_token settings now subject jti = crypto.encode (record {
      sub = some subject;
      kind = some (codes "refresh");
      iat = now;
      exp = now + settings.refresh_token_expire_days * 86400;
      jti = some jti;
    })

    -- `_issue_tokens` and the `commit` of its callers, which checks the unique constraint on
    -- `jti`. `before` is what the session is rolled back to.
    unfoldable pub issue_tokens : Settings F → ℕ → ℕ → ℕ → Db F → Exec (Db F) TokenResponse
    unfolding create_access_token create_refresh_token
    issue_tokens settings now jti user before db =
        if any (is_token jti) db.refresh_tokens then (err integrity_error, before) else (
          ok (record {
            access_token = create_access_token settings now (crypto.str_uuid user);
            refresh_token =
                create_refresh_token settings now (crypto.str_uuid user) (crypto.str_uuid jti);
          }),
          record db {
            refresh_tokens =
                db.refresh_tokens
                ++ record {
                  user_id = user;
                  jti = jti;
                  expires_at = now + settings.refresh_token_expire_days * 86400;
                  revoked_at = none;
                }
                  ∷ [];
          },
        )

    unfoldable pub login : Settings F → ℕ → ℕ → Text → Text → Exec (Db F) TokenResponse
    login settings now jti email password db = elim (authenticate db email password) [
      | err e ↦ (err e, db)
      | ok user ↦ issue_tokens settings now jti user.id db db
    ]

    -- The checks of `refresh`: the user and the `jti` of the stored token.
    unfoldable pub check_refresh : ℕ → Text → Db F → Result (ℕ × ℕ)
    check_refresh now token db = and_then (decode_refresh crypto now token) λ p.
        elim (get_active db now p.1) [
          | none ↦ err invalid_credentials
          | some stored ↦
              if not (nat_beq stored.user_id p.0)
              then err invalid_credentials
              else elim (get_by_id db p.0) [
                | none ↦ err invalid_credentials
                | some user ↦
                    if not user.is_active then err invalid_credentials else ok (user.id, stored.jti)
              ]
        ]

    unfoldable pub refresh : Settings F → ℕ → ℕ → Text → Exec (Db F) TokenResponse
    refresh settings now new_jti token db = elim (check_refresh now token db) [
      | err e ↦ (err e, db)
      | ok (user, jti) ↦
          issue_tokens settings now new_jti user db
            (record db { refresh_tokens = revoke_rows now jti db.refresh_tokens })
    ]

    unfoldable pub logout : ℕ → Text → Exec (Db F) Unit
    logout now token db = elim (decode_refresh crypto now token) [
      | err e ↦ (err e, db)
      | ok (subject, jti) ↦ elim (get_active db now jti) [
        | none ↦ (err invalid_credentials, db)
        | some stored ↦
            (ok tt, record db { refresh_tokens = revoke_rows now stored.jti db.refresh_tokens })
      ]
    ]

    -- app/api/deps.py. A subject that is no UUID is a `ValueError`, which nothing catches.
    unfoldable pub get_current_user : ℕ → Text → Db F → Result User
    get_current_user now token db = elim (crypto.decode now token) [
      | none ↦ err (http_exception 401)
      | some payload ↦
          if not (has_type (codes "access") payload.kind)
          then err (http_exception 401)
          else if not (truthy payload.sub)
          then err (http_exception 401)
          else elim (crypto.parse_uuid (text_or_empty payload.sub)) [
            | none ↦ err value_error
            | some id ↦ elim (get_by_id db id) [
              | none ↦ err (http_exception 401)
              | some user ↦ if not user.is_active then err (http_exception 401) else ok user
            ]
          ]
    ]
