-- ===== src/Tests/Served.antt =====
-- A request that the application answers with a failure, over numbers that wrap around at 256.
use nexus_ai.Base.{ℕ, ◌+◌, ◌-◌, ◌%◌, ◌≡◌, refl, none, [], ◌∷◌, ok, Exec, nat_eq, list_eq, pair_eq}
use nexus_ai.Base.Dict
use nexus_ai.Base.Float.{FloatOps, whole}
use nexus_ai.Base.Text.{codes, decimal}
use nexus_ai.Config.{Settings, defaults}
use nexus_ai.Metrics.{new_registry}
use nexus_ai.Middleware.{HttpRequest, HttpResponse, Server, serve, id_of, final_status}
use nexus_ai.Middleware.Served.{IsDressed, IsCounted, serve-observed}

abbrev wrapping : FloatOps ℕ
wrapping = record whole { add = λ a b. (a + b) % 256; sub = λ a b. (a + 256 - b) % 256 }

abbrev config : Settings ℕ
config = defaults 0 0 1 15

abbrev request : HttpRequest
request = record {
  method = codes "GET";
  path = codes "/api/v1/workspaces";
  headers = (codes "x-request-id", codes "r1") ∷ [];
  client_host = none;
}

abbrev server : Server ℕ ℕ
server = record {
  metrics = new_registry wrapping decimal (1 ∷ 10 ∷ []);
  hits = [];
  request_id = none;
  app = 0;
}

-- An application that counts its calls and is never available.
abbrev unavailable : HttpRequest → Exec (Server ℕ ℕ) HttpResponse
unavailable r s = (ok (record { status_code = 503; headers = [] }), record s { app = s.app + 1 })

serve-observed_example :
    let (r, s') =
      serve wrapping decimal (λ s. s) 1 config 90 2 (codes "new") unavailable request server in
    (s'.request_id ≡ server.request_id)
    × IsDressed (id_of request (codes "new")) config.security_headers_enabled r
    × IsCounted wrapping decimal
        (λ s. s)
        1
        config
        90
        2
        (codes "new")
        unavailable
        request
        server
        (final_status r)
        s'.metrics
unfolding Dict.lookup new_registry
serve-observed_example =
    serve-observed wrapping decimal (λ s. s) 1 config 90 2 (codes "new") unavailable request server
      (λ s. (refl, refl, refl)) refl
