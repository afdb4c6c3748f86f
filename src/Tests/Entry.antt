-- ===== src/Tests/Entry.antt =====
-- A request with an access token of `ada`, in a process whose tables hold her account.
use nexus_ai.Base.{
  ℕ, ◌≡◌, refl, ◌⊎◌, Error, Exec, Result, Option, none, some, gets, ok, err, http_exception,
}
use nexus_ai.Base.Text.{Text}
use nexus_ai.Database.{User}
use nexus_ai.VectorStore.Memory.{Records}
use nexus_ai.Auth.{get_current_user, get_by_id, create_access_token, create_refresh_token}
use nexus_ai.Ingestion.{rollback}
use nexus_ai.Process.{Process, in_request}
use nexus_ai.Routes.{as_user}
use nexus_ai.Routes.Entry.{Admits, IsRefusal, as_user-granted}
use nexus_ai.Tests.Signing.{toy}
use nexus_ai.Tests.Sessions.{accounts, tokens_at}
use nexus_ai.Tests.Answers.{process}

abbrev p : Process ℕ (Records ℕ)
p = record process { world = record process.world { session = accounts; committed = accounts } }

abbrev show_id : User → Exec (Process ℕ (Records ℕ)) ℕ
show_id user = gets (λ p. user.id)

-- The credentials are what the header holds; without it, 403.
abbrev bearer : Option Text → Result Text
bearer none = err (http_exception 403)
bearer (some token) = ok token

abbrev header : Option Text
header = some (tokens_at 1000 8).access_token

as_user-granted_example :
    ((user : User) × Admits toy bearer 1001 header p.world.session user
      × (as_user toy bearer 1001 header show_id p ≡ in_request (show_id user) p))
    ⊎ ((¬ ((user : User) × Admits toy bearer 1001 header p.world.session user))
        × (e : Error) × IsRefusal toy bearer 1001 header p.world.session e
        × (as_user toy bearer 1001 header show_id p
            ≡ (err e, record p { world = rollback p.world })))
as_user-granted_example = as_user-granted toy bearer 1001 header show_id p

-- The token lets `ada` in; the refresh token does not, and no token neither.
shown : (as_user toy bearer 1001 header show_id p).0 ≡ ok 5
unfolding as_user in_request get_current_user create_access_token get_by_id
shown = refl

refused :
    (as_user toy bearer 1001 (some (tokens_at 1000 8).refresh_token) show_id p).0
    ≡ err (http_exception 401)
unfolding as_user in_request get_current_user create_refresh_token get_by_id
refused = refl

anonymous : (as_user toy bearer 1001 none show_id p).0 ≡ err (http_exception 403)
unfolding as_user in_request
anonymous = refl
