-- ===== src/Auth/Sessions.antt =====
-- What the tokens of a login are good for: the access token for requests, the refresh token for one
-- refresh, and neither for the other.
use nexus_ai.Base.{
  ℕ, ◌+◌, ◌*◌, ◌≤◌, ◌<◌, ◌≡◌, ◌≢◌, refl, ◌∙◌, true, false, none, some, List, [], ◌∷◌, ◌++◌, find?,
  any, arith, ok, err, invalid_credentials, http_exception, Option-cases, inl, inr, nat_eq,
  Result-cases,
}
use nexus_ai.Base.Text.{Text, codes}
use nexus_ai.Config.{Settings}
use nexus_ai.Database.{Db, User, RefreshToken}
use nexus_ai.Auth.Primitives.{Claims, Crypto, IsCrypto}
use nexus_ai.Auth.{
  TokenResponse, is_token, revoke_rows, truthy, get_active, get_by_email, get_by_id, authenticate,
  create_access_token, create_refresh_token, decode_refresh, check_refresh, issue_tokens, login,
  refresh, get_current_user,
}

truthy-some : (s : Text) → s ≢ [] → truthy (some s) ≡ true
truthy-some [] h = absurd (h refl)
truthy-some (c ∷ s) h = refl

any-revoke_rows :
    (now jti j : ℕ) (ts : List RefreshToken)
    → any (is_token j) (revoke_rows now jti ts) ≡ any (is_token j) ts
unfolding revoke_rows
any-revoke_rows now jti j [] = refl
any-revoke_rows now jti j (t ∷ ts) = ground (arith, any-revoke_rows now jti j ts)

find?-append_new :
    (j : ℕ) (t : RefreshToken) (ts : List RefreshToken)
    → any (is_token j) ts ≡ false
    → t.jti ≡ j
    → find? (is_token j) (ts ++ t ∷ []) ≡ some t
find?-append_new j t [] h e = ground arith
find?-append_new j t (x ∷ ts) h e = ground (arith, find?-append_new j t ts)

module _ {F : Type 0} (crypto : Crypto) (laws : IsCrypto crypto) (settings : Settings F) where
  decode_refresh-issued :
      (now later user jti : ℕ)
      → now ≤ later
      → later < now + settings.refresh_token_expire_days * 86400
      → decode_refresh crypto later
          (create_refresh_token crypto settings now (crypto.str_uuid user) (crypto.str_uuid jti))
        ≡ ok (user, jti)
  unfolding decode_refresh create_refresh_token
  decode_refresh-issued now later user jti lo hi =
      let claims : Claims = record {
        sub = some (crypto.str_uuid user);
        kind = some (codes "refresh");
        iat = now;
        exp = now + settings.refresh_token_expire_days * 86400;
        jti = some (crypto.str_uuid jti);
      } in
      ground (
        arith,
        laws.decode-encode claims later lo hi,
        truthy-some (crypto.str_uuid user) (laws.str_nonempty user),
        truthy-some (crypto.str_uuid jti) (laws.str_nonempty jti),
        laws.parse-str user,
        laws.parse-str jti,
      )

  -- A refresh token is no access token: every request that shows one gets the status 401.
  refresh_token_rejected :
      (now later user jti : ℕ) (db : Db F)
      → get_current_user crypto later
          (create_refresh_token crypto settings now (crypto.str_uuid user) (crypto.str_uuid jti))
          db
        ≡ err (http_exception 401)
  unfolding get_current_user create_refresh_token
  refresh_token_rejected now later user jti db =
      let token =
        create_refresh_token crypto settings now (crypto.str_uuid user) (crypto.str_uuid jti) in
      elim (Option-cases (crypto.decode later token)) [
        | inl bad ↦ ground arith
        | inr (x, e) ↦ let same = laws.decode_encoded _ x later e in ground arith
      ]

  access_token_not_refreshed :
      (now later user : ℕ)
      → decode_refresh crypto later (create_access_token crypto settings now (crypto.str_uuid user))
        ≡ err invalid_credentials
  unfolding decode_refresh create_access_token
  access_token_not_refreshed now later user =
      let token = create_access_token crypto settings now (crypto.str_uuid user) in
      elim (Option-cases (crypto.decode later token)) [
        | inl bad ↦ ground arith
        | inr (x, e) ↦ let same = laws.decode_encoded _ x later e in ground arith
      ]

  -- The ids of users are a primary key: the row of a user that was found is the first with its id.
  abbrev pub IsKeyed : Db F → Type 0
  IsKeyed db =
      (u : User) (email : Text) → get_by_email db email ≡ some u → get_by_id db u.id ≡ some u

  authenticate-user :
      (db : Db F) (email password : Text) (user : User)
      → authenticate crypto db email password ≡ ok user
      → (get_by_email db email ≡ some user)
        × (user.is_active ≡ true)
        × (crypto.verify password user.hashed_password ≡ true)
  unfolding authenticate
  authenticate-user db email password user h = elim (Option-cases (get_by_email db email)) [
    | inl nobody ↦ absurd (ground arith)
    | inr (u, e) ↦ (ground arith, ground arith, ground arith)
  ]

  check_refresh-issued :
      (now later jti : ℕ) (user : User) (db : Db F)
      → any (is_token jti) db.refresh_tokens ≡ false
      → get_by_id db user.id ≡ some user
      → user.is_active ≡ true
      → now ≤ later
      → later < now + settings.refresh_token_expire_days * 86400
      → check_refresh crypto later
          (create_refresh_token crypto settings now (crypto.str_uuid user.id) (crypto.str_uuid jti))
          (issue_tokens crypto settings now jti user.id db db).1
        ≡ ok (user.id, jti)
  unfolding check_refresh get_active issue_tokens get_by_id
  check_refresh-issued now later jti user db free found active lo hi =
      let row : RefreshToken = record {
        user_id = user.id;
        jti = jti;
        expires_at = now + settings.refresh_token_expire_days * 86400;
        revoked_at = none;
      } in
      ground (
        arith,
        decode_refresh-issued now later user.id jti lo hi,
        find?-append_new jti row db.refresh_tokens free refl,
      )

  get_current_user-issued :
      (now later jti : ℕ) (user : User) (db : Db F)
      → get_by_id db user.id ≡ some user
      → user.is_active ≡ true
      → now ≤ later
      → later < now + settings.access_token_expire_minutes * 60
      → get_current_user crypto later
          (create_access_token crypto settings now (crypto.str_uuid user.id))
          (issue_tokens crypto settings now jti user.id db db).1
        ≡ ok user
  unfolding get_current_user create_access_token issue_tokens get_by_id
  get_current_user-issued now later jti user db found active lo hi =
      let claims : Claims = record {
        sub = some (crypto.str_uuid user.id);
        kind = some (codes "access");
        iat = now;
        exp = now + settings.access_token_expire_minutes * 60;
        jti = none;
      } in
      ground (
        arith,
        laws.decode-encode claims later lo hi,
        truthy-some (crypto.str_uuid user.id) (laws.str_nonempty user.id),
        laws.parse-str user.id,
      )

  refresh-check :
      (later new_jti : ℕ) (token : Text) (db : Db F) (user jti : ℕ)
      → check_refresh crypto later token db ≡ ok (user, jti)
      → any (is_token new_jti) db.refresh_tokens ≡ false
      → (again : TokenResponse) × ((refresh crypto settings later new_jti token db).0 ≡ ok again)
  unfolding refresh issue_tokens
  refresh-check later new_jti token db user jti e free =
      let free' : any (is_token new_jti) (revoke_rows later jti db.refresh_tokens) ≡ false =
        any-revoke_rows later jti new_jti db.refresh_tokens ∙ free in
      (
        record {
          access_token = create_access_token crypto settings later (crypto.str_uuid user);
          refresh_token =
              create_refresh_token crypto settings later (crypto.str_uuid user)
                (crypto.str_uuid new_jti);
        },
        ground arith,
      )

  -- Under the laws of `IsCrypto`, with ids that are a key of the users: a login that succeeds is
  -- one of an active user by the right password. Until it expires, the access token then identifies
  -- that user, and the refresh token can be exchanged (under a new `jti`). The refresh token
  -- identifies nobody, and the access token cannot be exchanged, at any time and whatever the
  -- database holds.
  pub login_session :
      (now jti : ℕ) (email password : Text) (db : Db F) (tokens : TokenResponse)
      → IsKeyed db
      → (login crypto settings now jti email password db).0 ≡ ok tokens
      → (user : User) × (get_by_email db email ≡ some user)
        × (user.is_active ≡ true)
        × (crypto.verify password user.hashed_password ≡ true)
        × ((later : ℕ)
            → now ≤ later
            → later < now + settings.access_token_expire_minutes * 60
            → get_current_user crypto later tokens.access_token
                (login crypto settings now jti email password db).1
              ≡ ok user)
        × ((later new_jti : ℕ)
            → now ≤ later
            → later < now + settings.refresh_token_expire_days * 86400
            → any
                (is_token new_jti)
                (login crypto settings now jti email password db).1.refresh_tokens
              ≡ false
            → (again : TokenResponse) × ((refresh crypto settings later new_jti tokens.refresh_token
                  (login crypto settings now jti email password db).1).0
                ≡ ok again))
        × ((later new_jti : ℕ) (other : Db F)
            → (get_current_user crypto later tokens.refresh_token other ≡ err (http_exception 401))
              × (refresh crypto settings later new_jti tokens.access_token other
                  ≡ (err invalid_credentials, other)))
  login_session now jti email password db tokens keyed h =
      elim (Result-cases (authenticate crypto db email password)) [
        | inr (x, e) ↦ absurd (unfold login in ground arith)
        | inl (user, e) ↦
            let (by_email, active, verified) = authenticate-user db email password user e in
            let found = keyed user email by_email in
            let start : login crypto settings now jti email password db
                ≡ issue_tokens crypto settings now jti user.id db db =
              unfold login in ground arith in
            let free : any (is_token jti) db.refresh_tokens ≡ false =
              unfold login issue_tokens in ground arith in
            let access : tokens.access_token
                ≡ create_access_token crypto settings now (crypto.str_uuid user.id) =
              unfold login issue_tokens in ground arith in
            let renewal : tokens.refresh_token
                ≡ create_refresh_token crypto settings now (crypto.str_uuid user.id)
                    (crypto.str_uuid jti) =
              unfold login issue_tokens in ground arith in
            (
              user,
              by_email,
              active,
              verified,
              (λ later lo hi.
                  simp (access, start)
                    (get_current_user-issued now later jti user db found active lo hi)),
              (λ later new_jti lo hi unused.
                  simp (renewal, start)
                    (refresh-check later new_jti _ _ user.id jti
                      (check_refresh-issued now later jti user db free found active lo hi)
                      (simp start at unused))),
              λ later new_jti other. (
                simp renewal (refresh_token_rejected now later user.id jti other),
                simp access (
                    unfold refresh check_refresh in
                    ground (arith, access_token_not_refreshed now later user.id)),
              ),
            )
      ]
