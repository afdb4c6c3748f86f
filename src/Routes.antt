-- ===== src/Routes.antt =====
-- app/api/v1: the endpoints as handlers for an authenticated user, which raise FastAPI's
-- `HTTPException` by its status. A response shows the row that the handler returns, and of a
-- document its id stands for it. The validation of payloads by pydantic is left out.
pub mod Accounts
pub mod Files
pub mod Talks
pub mod Access
pub mod Entry
use nexus_ai.Base.{
  ℕ, Exec, Result, ok, err, Error, http_exception, not_found_error, permission_denied,
  email_already_exists, invalid_credentials, Option, and_then, url_fetch_error,
}
use nexus_ai.Base.Text.{Text}
use nexus_ai.Database.{Db, User}
use nexus_ai.Auth.{get_current_user}
use nexus_ai.Auth.Primitives.{Crypto}
use nexus_ai.Process.{Process, in_request, commit_session}

-- `except NotFoundError`
abbrev pub or_not_found {ℓ} : {A : Type ℓ} → Result A → Result A
or_not_found (err not_found_error) = err (http_exception 404)
or_not_found r = r

-- The statuses that the routes give to the other errors of the services.
abbrev pub or_forbidden {ℓ} : {A : Type ℓ} → Result A → Result A
or_forbidden (err permission_denied) = err (http_exception 403)
or_forbidden r = r

abbrev pub or_unauthorized {ℓ} : {A : Type ℓ} → Result A → Result A
or_unauthorized (err invalid_credentials) = err (http_exception 401)
or_unauthorized r = r

abbrev pub or_conflict {ℓ} : {A : Type ℓ} → Result A → Result A
or_conflict (err (email_already_exists email)) = err (http_exception 409)
or_conflict r = r

abbrev pub or_bad_request {ℓ} : {A : Type ℓ} → Result A → Result A
or_bad_request (err url_fetch_error) = err (http_exception 400)
or_bad_request r = r

module _ {F S : Type 0} where
  -- A handler with another outcome.
  abbrev pub outcome_by :
      {A : Type 0} → (Result A → Result A) → Exec (Process F S) A → Exec (Process F S) A
  outcome_by f m p = let (r, p') = m p in (f r, p')

  -- A service that writes the session and commits it, unless it raises.
  abbrev keep_db : {A : Type 0} → Result A × Db F → Process F S → Result A × Process F S
  keep_db (ok a, db) p =
      (ok a, record p { world = record p.world { session = db; committed = db } })
  keep_db (err e, db) p = (err e, record p { world = record p.world { session = db } })

  abbrev pub on_db : {A : Type 0} → Exec (Db F) A → Exec (Process F S) A
  on_db m p = keep_db (m p.world.session) p

  -- `CurrentUser`, in the session of the request. `HTTPBearer(auto_error=True)` is a parameter: it
  -- gives the credentials of the `Authorization` header, or raises where there are none.
  unfoldable pub as_user :
      {A : Type 0}
      → Crypto
      → (Option Text → Result Text)
      → ℕ
      → Option Text
      → (User → Exec (Process F S) A)
      → Exec (Process F S) A
  unfolding get_current_user in_request
  as_user crypto bearer now header handler = in_request λ p.
      elim (and_then (bearer header) (λ token. get_current_user crypto now token p.world.session)) [
        | err e ↦ (err e, p)
        | ok user ↦ handler user p
      ]
