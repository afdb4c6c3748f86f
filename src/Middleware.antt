-- ===== src/Middleware.antt =====
-- The middleware stack of app/main.py: app/core/observability.py, app/core/security_headers.py and
-- app/core/context.py around the limiter of app/core/ratelimit.py. Names of headers are lower case,
-- as Starlette compares them. A handler that raises leaves what it wrote.
pub mod Served
use nexus_ai.Base.{
  ℕ, ◌+◌, Bool, true, false, not, Option, none, some, List, [], ◌∷◌, ◌++◌, if◌then◌else◌, is_some,
  leb, nat_beq, Exec, Result, ok, err, Error, zero_division_error, list_eq, pair_eq, nat_eq,
}
use nexus_ai.Base.Dict
use nexus_ai.Base.Dict.{Dict}
use nexus_ai.Base.Float.{FloatOps}
use nexus_ai.Base.Text.{Text, codes, decimal}
use nexus_ai.Config.{Settings}
use nexus_ai.Metrics.{MetricsRegistry, Labels, add_amount, dec, observe}
use nexus_ai.RateLimit
use nexus_ai.RateLimit.{Hits, Verdict, passed, limited, zero_division, dispatch}

pub record HttpRequest : Type 0 where
  pub method : Text
  pub path : Text
  pub headers : Dict Text Text
  pub client_host : Option Text

pub record HttpResponse : Type 0 where
  pub status_code : ℕ
  pub headers : Dict Text Text

-- What the middleware keeps, and the application with states `T`.
pub record Server (F T : Type 0) : Type 0 where
  pub metrics : MetricsRegistry F
  pub hits : Hits
  -- the context variable of app/core/context.py
  pub request_id : Option Text
  pub app : T

abbrev pub request_id_header : Text
request_id_header = codes "x-request-id"

-- `_HEADERS`
abbrev pub security_headers : List (Text × Text)
security_headers =
    (codes "x-content-type-options", codes "nosniff")
    ∷ (codes "x-frame-options", codes "DENY")
    ∷ (codes "referrer-policy", codes "no-referrer")
    ∷ (codes "permissions-policy", codes "geolocation=(), microphone=(), camera=()")
    ∷ (codes "cross-origin-opener-policy", codes "same-origin")
    ∷ (codes "strict-transport-security", codes "max-age=63072000; includeSubDomains")
    ∷ (codes "content-security-policy", codes "frame-ancestors 'none'")
    ∷ []

-- `headers.setdefault(header, value)`
unfoldable pub set_default : Text → Text → Dict Text Text → Dict Text Text
set_default header value headers =
    if is_some (Dict.lookup header headers) then headers else headers ++ (header, value) ∷ []

unfoldable pub set_defaults : List (Text × Text) → Dict Text Text → Dict Text Text
unfolding set_default
set_defaults [] headers = headers
set_defaults ((header, value) ∷ rest) headers = set_defaults rest (set_default header value headers)

-- `request.headers.get(_REQUEST_ID_HEADER) or new_request_id()`
abbrev pub id_or_new : Option Text → Text → Text
id_or_new (some (c ∷ id)) new_id = c ∷ id
id_or_new _ new_id = new_id

unfoldable pub id_of : HttpRequest → Text → Text
unfolding Dict.lookup
id_of request new_id = id_or_new (Dict.lookup request_id_header request.headers) new_id

abbrev pub with_id : Text → Result HttpResponse → Result HttpResponse
with_id request_id (err e) = err e
with_id request_id (ok r) =
    ok (record r { headers = Dict.insert request_id_header request_id r.headers })

abbrev pub secured : Result HttpResponse → Result HttpResponse
secured (err e) = err e
secured (ok r) = ok (record r { headers = set_defaults security_headers r.headers })

-- The 429 response of the limiter.
abbrev pub too_many : ℕ → HttpResponse
too_many retry_after = record {
  status_code = 429;
  headers = (codes "retry-after", decimal retry_after) ∷ [];
}

-- What the limiter reads of the request.
abbrev pub limiter_view : HttpRequest → RateLimit.Request
limiter_view request = record {
  path = request.path;
  authorization = Dict.lookup (codes "authorization") request.headers;
  client_host = request.client_host;
}

-- `status`, which is 500 where the handler raised
abbrev pub final_status : Result HttpResponse → ℕ
final_status (ok r) = r.status_code
final_status (err e) = 500

abbrev pub request_labels : Text → ℕ → Labels
request_labels method status = (codes "method", method) ∷ (codes "status", decimal status) ∷ []

module _ {F T : Type 0} where
  -- `RequestContextMiddleware.dispatch`, with a fresh `uuid4().hex`
  unfoldable pub request_context :
      Text → HttpRequest → Exec (Server F T) HttpResponse → Exec (Server F T) HttpResponse
  unfolding id_of Dict.insert
  request_context new_id request call_next s =
      let request_id = id_of request new_id in
      let (r, s') = call_next (record s { request_id = some request_id }) in
      (with_id request_id r, record s' { request_id = s.request_id })

  -- `SecurityHeadersMiddleware.dispatch`
  unfoldable pub add_security_headers :
      Settings F → Exec (Server F T) HttpResponse → Exec (Server F T) HttpResponse
  unfolding set_defaults
  add_security_headers settings call_next s =
      let (r, s') = call_next s in (if settings.security_headers_enabled then secured r else r, s')

  abbrev pub follow : Verdict → Exec (Server F T) HttpResponse → Exec (Server F T) HttpResponse
  follow passed call_next s = call_next s
  follow (limited retry_after) call_next s = (ok (too_many retry_after), s)
  follow zero_division call_next s = (err zero_division_error, s)

  -- `RateLimitMiddleware.dispatch`, at a time in ticks
  unfoldable pub limit_rate :
      (Text → Text)
      → ℕ
      → Settings F
      → ℕ
      → HttpRequest
      → Exec (Server F T) HttpResponse
      → Exec (Server F T) HttpResponse
  unfolding dispatch decimal
  limit_rate sha256_hex hz settings now request call_next s =
      let (verdict, hits) = dispatch sha256_hex hz settings now (limiter_view request) s.hits in
      follow verdict call_next (record s { hits = hits })

module _ {F : Type 0} (fl : FloatOps F) (show : F → Text) where
  -- The `finally` block.
  unfoldable pub count_request : Text → F → ℕ → MetricsRegistry F → MetricsRegistry F
  unfolding add_amount dec observe decimal
  count_request method elapsed status r =
      let errors = add_amount fl show (fl.of_nat 1) ((codes "method", method) ∷ []) r.http_errors in
      record r {
        http_in_flight = dec fl show (fl.of_nat 1) [] r.http_in_flight;
        http_duration = observe fl show elapsed r.http_duration;
        http_requests =
            add_amount fl show (fl.of_nat 1) (request_labels method status) r.http_requests;
        http_errors = if leb 500 status then errors else r.http_errors;
      }

  unfoldable pub start_request : MetricsRegistry F → MetricsRegistry F
  unfolding add_amount
  start_request r = record r {
    http_in_flight = add_amount fl show (fl.of_nat 1) [] r.http_in_flight;
  }

module _ {F T : Type 0} (fl : FloatOps F) (show : F → Text) where
  -- `MetricsMiddleware.dispatch`, with the time that the handler takes
  unfoldable pub measure :
      F → HttpRequest → Exec (Server F T) HttpResponse → Exec (Server F T) HttpResponse
  unfolding start_request count_request
  measure elapsed request call_next s =
      let (r, s') = call_next (record s { metrics = start_request fl show s.metrics }) in
      (
        r,
        record s' {
          metrics = count_request fl show request.method elapsed (final_status r) s'.metrics;
        },
      )

  -- `create_app`: the middleware added last is the outermost.
  unfoldable pub serve :
      (Text → Text)
      → ℕ
      → Settings F
      → ℕ
      → F
      → Text
      → (HttpRequest → Exec (Server F T) HttpResponse)
      → HttpRequest
      → Exec (Server F T) HttpResponse
  unfolding request_context measure add_security_headers limit_rate
  serve sha256_hex hz settings now elapsed new_id app request = request_context new_id request (
      measure elapsed request (
        add_security_headers settings
          (limit_rate sha256_hex hz settings now request (app request))))
