-- ===== src/Middleware/Served.antt =====
-- What holds of every request that the stack serves.
use nexus_ai.Base.{
  ℕ, Bool, true, false, ◌≡◌, refl, ap, sym, ◌∙◌, Option, none, some, List, [], ◌∷◌, ◌++◌, All,
  All-map_imp, if◌then◌else◌, is_some, leb, Exec, Result, ok, err, list_eq, nat_eq, pair_eq,
  Bool-cases, inl, inr, arith, eq_refl, ◌==◌, subst,
}
use nexus_ai.Base.Dict
use nexus_ai.Base.Dict.{Dict}
use nexus_ai.Base.Float.{FloatOps}
use nexus_ai.Base.Text.{Text, codes}
use nexus_ai.Config.{Settings}
use nexus_ai.Metrics.{MetricsRegistry, Scalar, add_amount, dec}
use nexus_ai.RateLimit.{Verdict, passed, limited, zero_division, dispatch}
use nexus_ai.Middleware.{
  HttpRequest, HttpResponse, Server, request_id_header, security_headers, set_default, set_defaults,
  id_of, with_id, request_context, secured, add_security_headers, follow, limiter_view, limit_rate,
  final_status, request_labels, count_request, start_request, measure, serve,
}

abbrev pub IsPresent : Text → Dict Text Text → Type 0
IsPresent header headers = is_some (Dict.lookup header headers) ≡ true

append-IsPresent : (k : Text) (d e : Dict Text Text) → IsPresent k d → IsPresent k (d ++ e)
unfolding Dict.lookup
append-IsPresent k [] e h = absurd (ground arith)
append-IsPresent k ((j, v) ∷ d) e h = ground (arith, append-IsPresent k d e)

append_self-IsPresent : (k v : Text) (d : Dict Text Text) → IsPresent k (d ++ (k, v) ∷ [])
unfolding Dict.lookup
append_self-IsPresent k v [] = rw (eq_refl k) refl
append_self-IsPresent k v ((j, w) ∷ d) = ground (arith, append_self-IsPresent k v d)

set_default-keeps :
    (header value k : Text) (d : Dict Text Text)
    → IsPresent k d
    → IsPresent k (set_default header value d)
unfolding set_default
set_default-keeps header value k d h = elim (Bool-cases (is_some (Dict.lookup header d))) [
  | inl there ↦ rw there h
  | inr missing ↦ rw missing (append-IsPresent k d ((header, value) ∷ []) h)
]

set_default-sets :
    (header value : Text) (d : Dict Text Text) → IsPresent header (set_default header value d)
unfolding set_default
set_default-sets header value d = elim (Bool-cases (is_some (Dict.lookup header d))) [
  | inl there ↦ rw there there
  | inr missing ↦ rw missing (append_self-IsPresent header value d)
]

set_defaults-keeps :
    (defaults : List (Text × Text)) (k : Text) (d : Dict Text Text)
    → IsPresent k d
    → IsPresent k (set_defaults defaults d)
unfolding set_defaults
set_defaults-keeps [] k d h = h
set_defaults-keeps ((header, value) ∷ rest) k d h =
    set_defaults-keeps rest k (set_default header value d) (set_default-keeps header value k d h)

set_defaults-sets :
    (defaults : List (Text × Text)) (d : Dict Text Text)
    → All (λ h. IsPresent h.0 (set_defaults defaults d)) defaults
unfolding set_defaults
set_defaults-sets [] d = tt
set_defaults-sets ((header, value) ∷ rest) d = (
  set_defaults-keeps rest header (set_default header value d) (set_default-sets header value d),
  set_defaults-sets rest (set_default header value d),
)

insert-IsPresent :
    (k j v : Text) (d : Dict Text Text) → IsPresent k d → IsPresent k (Dict.insert j v d)
insert-IsPresent k j v d h = elim (Bool-cases (j == k)) [
  | inl same ↦ rw (Dict.lookup-insert j k v d, same) refl
  | inr other ↦ rw (Dict.lookup-insert j k v d, other) h
]

-- A response carries this id and, if they are on, every security header.
abbrev pub IsDressed : Text → Bool → Result HttpResponse → Type 0
IsDressed request_id on (err e) = Unit
IsDressed request_id on (ok r) =
    (Dict.lookup request_id_header r.headers ≡ some request_id)
    × (if on then All (λ h. IsPresent h.0 r.headers) security_headers else Unit)

dressed :
    (request_id : Text) (on : Bool) (r : Result HttpResponse)
    → IsDressed request_id on (with_id request_id (if on then secured r else r))
dressed request_id true (err e) = tt
dressed request_id false (err e) = tt
dressed request_id true (ok r) =
    let headers = set_defaults security_headers r.headers in
    (
      Dict.lookup-insert_self request_id_header request_id headers,
      All-map_imp (λ h there. insert-IsPresent h.0 request_id_header request_id headers there)
          security_headers (set_defaults-sets security_headers r.headers),
    )
dressed request_id false (ok r) =
    (Dict.lookup-insert_self request_id_header request_id r.headers, tt)

final_status-with_id :
    (request_id : Text) (r : Result HttpResponse)
    → final_status (with_id request_id r) ≡ final_status r
final_status-with_id request_id (err e) = refl
final_status-with_id request_id (ok r) = refl

abbrev SameCounters : {F : Type 0} → MetricsRegistry F → MetricsRegistry F → Type 0
SameCounters a b =
    (a.http_requests ≡ b.http_requests)
    × (a.http_errors ≡ b.http_errors)
    × (a.http_in_flight ≡ b.http_in_flight)

module _ {F : Type 0} (fl : FloatOps F) (show : F → Text) where
  -- The value of a collector without labels.
  abbrev pub level : Scalar F → F
  level s = Dict.get_or [] s.amounts fl.zero_float

  level-add_amount :
      (amount : F) (s : Scalar F) → level (add_amount fl show amount [] s) ≡ fl.add (level s) amount
  unfolding add_amount
  level-add_amount amount s =
      let value : Option F → F = λ found. elim found [ none ↦ fl.zero_float | some v ↦ v ] in
      ap value (Dict.lookup-insert_self [] (fl.add (level s) amount) s.amounts)

  level-dec :
      (s : Scalar F)
      → level (dec fl show (fl.of_nat 1) [] (add_amount fl show (fl.of_nat 1) [] s))
        ≡ fl.add (fl.add (level s) (fl.of_nat 1)) (fl.sub fl.zero_float (fl.of_nat 1))
  unfolding dec
  level-dec s =
      level-add_amount (fl.sub fl.zero_float (fl.of_nat 1)) (add_amount fl show (fl.of_nat 1) [] s)
      ∙ ap (λ x. fl.add x (fl.sub fl.zero_float (fl.of_nat 1))) (level-add_amount (fl.of_nat 1) s)

module _ {F T : Type 0} (fl : FloatOps F) (show : F → Text) where
  -- The application leaves the three counters of the requests alone.
  abbrev pub IsQuiet : Exec (Server F T) HttpResponse → Type 0
  IsQuiet app =
      (s : Server F T)
      → ((app s).1.metrics.http_requests ≡ s.metrics.http_requests)
        × ((app s).1.metrics.http_errors ≡ s.metrics.http_errors)
        × ((app s).1.metrics.http_in_flight ≡ s.metrics.http_in_flight)

  follow-SameCounters :
      (verdict : Verdict) (app : Exec (Server F T) HttpResponse) (s : Server F T)
      → IsQuiet app
      → SameCounters (follow verdict app s).1.metrics s.metrics
  follow-SameCounters passed app s quiet = quiet s
  follow-SameCounters (limited n) app s quiet = (refl, refl, refl)
  follow-SameCounters zero_division app s quiet = (refl, refl, refl)

  module _ (sha256_hex : Text → Text) (hz : ℕ) (settings : Settings F) (now : ℕ) (elapsed : F)
      (new_id : Text) (app : HttpRequest → Exec (Server F T) HttpResponse) (request : HttpRequest)
      (s : Server F T) where
    -- What the counters come to for a request with this status.
    abbrev pub IsCounted : ℕ → MetricsRegistry F → Type 0
    IsCounted status after =
        (after.http_requests
          ≡ add_amount fl show (fl.of_nat 1) (request_labels request.method status)
              s.metrics.http_requests)
        × (after.http_errors ≡ (
            if leb 500 status
            then add_amount fl show (fl.of_nat 1) ((codes "method", request.method) ∷ [])
                s.metrics.http_errors
            else s.metrics.http_errors))
        × (level fl show after.http_in_flight ≡ level fl show s.metrics.http_in_flight)

    count_request-IsCounted :
        (status : ℕ) (m : MetricsRegistry F)
        → fl.add
            (fl.add (level fl show s.metrics.http_in_flight) (fl.of_nat 1))
            (fl.sub fl.zero_float (fl.of_nat 1))
          ≡ level fl show s.metrics.http_in_flight
        → SameCounters m (start_request fl show s.metrics)
        → IsCounted status (count_request fl show request.method elapsed status m)
    unfolding count_request start_request
    count_request-IsCounted status m back (same, errors, gauge) = (
      ap (add_amount fl show (fl.of_nat 1) (request_labels request.method status)) same,
      ap
          (λ e.
            if leb 500 status
            then add_amount fl show (fl.of_nat 1) ((codes "method", request.method) ∷ []) e
            else e)
          errors,
      ap (λ g. level fl show (dec fl show (fl.of_nat 1) [] g)) gauge
          ∙ level-dec fl show s.metrics.http_in_flight
          ∙ back,
    )

    -- Where the application leaves the counters of the requests alone, and adding one to the gauge
    -- and taking it off again gives back its value: whatever the application does, and whether the
    -- limiter passes the request or not, a request leaves the request id of the context as it was;
    -- a response carries the client's request id, or the new one if the client sent none, and
    -- every security header if they are enabled; and the request is counted once, under its method
    -- and the status of the response, 500 for an exception, as an error exactly from 500 on, while
    -- the gauge of the requests in flight is back at its value.
    pub serve-observed :
        IsQuiet (app request)
        → fl.add
            (fl.add (level fl show s.metrics.http_in_flight) (fl.of_nat 1))
            (fl.sub fl.zero_float (fl.of_nat 1))
          ≡ level fl show s.metrics.http_in_flight
        → let (r, s') = serve fl show sha256_hex hz settings now elapsed new_id app request s in
          (s'.request_id ≡ s.request_id)
          × IsDressed (id_of request new_id) settings.security_headers_enabled r
          × IsCounted (final_status r) s'.metrics
    unfolding serve request_context measure add_security_headers limit_rate
    serve-observed quiet back =
        let id = id_of request new_id in
        let on = settings.security_headers_enabled in
        let s1 : Server F T = record s {
          request_id = some id;
          metrics = start_request fl show s.metrics;
        } in
        let checked = dispatch sha256_hex hz settings now (limiter_view request) s1.hits in
        let inner = follow checked.0 (app request) (record s1 { hits = checked.1 }) in
        let answer = if on then secured inner.0 else inner.0 in
        (
          refl,
          dressed id on inner.0,
          subst
              (λ status.
                IsCounted status
                  (serve fl show sha256_hex hz settings now elapsed new_id app request s).1.metrics)
              (sym (final_status-with_id id answer))
              (count_request-IsCounted (final_status answer) inner.1.metrics back (
                follow-SameCounters checked.0 (app request) (record s1 { hits = checked.1 })
                  quiet)),
        )
