-- ===== src/Tests/Sessions.antt =====
-- An active user with one row of a refresh token, under the toy signing scheme.
use nexus_ai.Base.{
  ℕ, ◌+◌, ◌*◌, ◌≤◌, ◌<◌, ◌≡◌, refl, true, false, ok, err, none, some, List, [], ◌∷◌, any,
  invalid_credentials, http_exception, arith,
}
use nexus_ai.Base.Text.{Text, codes}
use nexus_ai.Config.{Settings, defaults}
use nexus_ai.Database.{Db, no_rows, User}
use nexus_ai.Auth.{
  TokenResponse, is_token, create_access_token, create_refresh_token, check_refresh, decode_refresh,
  get_active, issue_tokens, revoke_rows, authenticate, login, refresh, logout, get_by_email,
  get_by_id, get_current_user,
}
use nexus_ai.Auth.Revocation.{Call, login_call, refresh_call, after_calls}
use nexus_ai.Auth.Rotation.{IsRefused, refresh_once, logout_once}
use nexus_ai.Auth.Sessions.{IsKeyed, login_session}
use nexus_ai.Tests.Signing.{toy, toy-IsCrypto}

abbrev config : Settings ℕ
config = defaults 0 0 1 15

abbrev ada : User
ada = record {
  id = 5;
  email = codes "ada@example.org";
  hashed_password = codes "secret";
  full_name = none;
  is_active = true;
  deleted_at = none;
}

abbrev pub accounts : Db ℕ
accounts = record (no_rows {F = ℕ}) {
  users = ada ∷ [];
  refresh_tokens = record { user_id = 5; jti = 7; expires_at = 2000; revoked_at = none } ∷ [];
}

-- The refresh token of `ada` with the `jti` 7, which was made at the time 100.
abbrev old_token : Text
old_token = create_refresh_token toy config 100 (5 ∷ []) (7 ∷ [])

abbrev pub tokens_at : ℕ → ℕ → TokenResponse
tokens_at now jti = record {
  access_token = create_access_token toy config now (5 ∷ []);
  refresh_token = create_refresh_token toy config now (5 ∷ []) (jti ∷ []);
}

abbrev calls : List Call
calls =
    login_call 1100 9 (codes "ada@example.org") (codes "secret")
    ∷ refresh_call 1200 10 old_token
    ∷ []

refresh-ada : (refresh toy config 1000 8 old_token accounts).0 ≡ ok (tokens_at 1000 8)
unfolding refresh check_refresh decode_refresh create_refresh_token get_active get_by_id
    issue_tokens revoke_rows
refresh-ada = refl

logout-ada : (logout toy 1000 old_token accounts).0 ≡ ok tt
unfolding logout decode_refresh create_refresh_token get_active
logout-ada = refl

login-ada : (login toy config 1000 8 ada.email (codes "secret") accounts).0 ≡ ok (tokens_at 1000 8)
unfolding login authenticate issue_tokens get_by_email
login-ada = refl

refresh_once_example :
    IsRefused toy config old_token
      (after_calls toy config calls (refresh toy config 1000 8 old_token accounts).1)
refresh_once_example =
    refresh_once toy config toy-IsCrypto 1000 8 old_token accounts (tokens_at 1000 8) refresh-ada
      calls

logout_once_example :
    IsRefused toy config old_token
      (after_calls toy config calls (logout toy 1000 old_token accounts).1)
logout_once_example = logout_once toy config toy-IsCrypto 1000 old_token accounts logout-ada calls

accounts-IsKeyed : IsKeyed toy toy-IsCrypto config accounts
unfolding get_by_email get_by_id
accounts-IsKeyed u email h = ground arith

login_session_example :
    (user : User) × (get_by_email accounts ada.email ≡ some user)
    × (user.is_active ≡ true)
    × (toy.verify (codes "secret") user.hashed_password ≡ true)
    × ((later : ℕ)
        → 1000 ≤ later
        → later < 1000 + config.access_token_expire_minutes * 60
        → get_current_user toy later
            (tokens_at 1000 8).access_token
            (login toy config 1000 8 ada.email (codes "secret") accounts).1
          ≡ ok user)
    × ((later new_jti : ℕ)
        → 1000 ≤ later
        → later < 1000 + config.refresh_token_expire_days * 86400
        → any
            (is_token new_jti)
            (login toy config 1000 8 ada.email (codes "secret") accounts).1.refresh_tokens
          ≡ false
        → (again : TokenResponse) × ((refresh toy config later new_jti
              (tokens_at 1000 8).refresh_token
              (login toy config 1000 8 ada.email (codes "secret") accounts).1).0
            ≡ ok again))
    × ((later new_jti : ℕ) (other : Db ℕ)
        → (get_current_user toy later (tokens_at 1000 8).refresh_token other
            ≡ err (http_exception 401))
          × (refresh toy config later new_jti (tokens_at 1000 8).access_token other
              ≡ (err invalid_credentials, other)))
login_session_example =
    login_session toy toy-IsCrypto config 1000 8 ada.email (codes "secret") accounts
      (tokens_at 1000 8) accounts-IsKeyed login-ada
