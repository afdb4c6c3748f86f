-- ===== src/RateLimit.antt =====
-- app/core/ratelimit.py: the fixed-window limiter. `time.monotonic()` is a number of ticks, `hz` of
-- them to the second. The hash of the token is a library function, and a parameter.
pub mod Window
pub mod Served
use nexus_ai.Base.{
  ℕ, zero, suc, ◌+◌, ◌-◌, ◌*◌, ◌/◌, ◌%◌, Bool, true, false, ◌&&◌, ◌||◌, not, Option, none, some,
  List, [], ◌∷◌, ◌++◌, ltb, nat_beq, if◌then◌else◌, any, take, max, list_eq, nat_eq,
}
use nexus_ai.Base.Dict
use nexus_ai.Base.Dict.{Dict}
use nexus_ai.Base.Text.{Text, codes, starts_with}
use nexus_ai.Config.{Settings}

abbrev pub exempt_prefixes : List Text
exempt_prefixes =
    codes "/healthz"
    ∷ codes "/readyz"
    ∷ codes "/metrics"
    ∷ codes "/docs"
    ∷ codes "/redoc"
    ∷ codes "/openapi.json"
    ∷ []

-- What the limiter reads of a request.
pub record Request : Type 0 where
  pub path : Text
  pub authorization : Option Text
  pub client_host : Option Text

pub data Verdict : Type 0 where
  -- `await call_next(request)`
  passed : Verdict
  -- the 429 response, with its `Retry-After`
  limited : ℕ → Verdict
  -- `now // 0`
  zero_division : Verdict

-- `self._hits`: the window and the count of each client.
abbrev pub Hits : Type 0
Hits = Dict Text (ℕ × ℕ)

unfoldable pub client_of : Option Text → Text
client_of none = codes "ip:unknown"
client_of (some host) = codes "ip:" ++ host

unfoldable pub client_key : (Text → Text) → Request → Text
unfolding client_of
client_key sha256_hex r = elim r.authorization [
  | none ↦ client_of r.client_host
  | some auth ↦ elim auth [
    | [] ↦ client_of r.client_host
    | c ∷ rest ↦ codes "u:" ++ take 16 (sha256_hex (c ∷ rest))
  ]
]

unfoldable pub is_exempt : Text → Bool
unfolding starts_with
is_exempt path = any (λ prefix. starts_with prefix path) exempt_prefixes

-- The count that the request gets: one more in the same window, else 1.
unfoldable pub next_count : Option (ℕ × ℕ) → ℕ → ℕ
next_count none window = 1
next_count (some (stored_window, count)) window =
    if nat_beq stored_window window then count + 1 else 1

-- `dispatch` from the line `window = int(now // window_seconds)` on, for a client's key.
unfoldable pub admit : ℕ → ℕ → ℕ → ℕ → Text → Hits → Verdict × Hits
admit hz window_seconds limit now key hits =
    let window = now / (window_seconds * hz) in
    let count = next_count (Dict.lookup key hits) window in
    let hits' = Dict.insert key (window, count) hits in
    if ltb limit count
    then (limited (max (window_seconds - now % (window_seconds * hz) / hz) 1), hits')
    else (passed, hits')

unfoldable pub dispatch {ℓ} :
    {F : Type ℓ} → (Text → Text) → ℕ → Settings F → ℕ → Request → Hits → Verdict × Hits
unfolding is_exempt client_key
dispatch sha256_hex hz settings now request hits =
    if not settings.rate_limit_enabled || is_exempt request.path
    then (passed, hits)
    else if nat_beq settings.rate_limit_window_seconds 0
    then (zero_division, hits)
    else admit hz settings.rate_limit_window_seconds settings.rate_limit_requests now
        (client_key sha256_hex request) hits
