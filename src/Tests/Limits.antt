-- ===== src/Tests/Limits.antt =====
-- The limiter with a window of 60 seconds and a limit of 2.
use nexus_ai.Base.{ℕ, ◌≤◌, ◌<◌, ◌≡◌, ◌↔◌, [], ◌∷◌, arith, refl, true, none, some}
use nexus_ai.Base.Dict
use nexus_ai.Config.{Settings, defaults}
use nexus_ai.Base.Text.{Text, codes, starts_with}
use nexus_ai.RateLimit.{Request, admit, passed, dispatch, is_exempt, client_key, next_count}
use nexus_ai.RateLimit.Window.{Tracks, Tracks-empty, admit-Tracks, seen}
use nexus_ai.RateLimit.Served.{served, served-le-limit, Traffic}

abbrev alice : Text
alice = codes "ip:alice"

admit-Tracks_example :
    Tracks (admit 1 60 2 10 alice []).1 ((alice, 0) ∷ [])
    × (((admit 1 60 2 10 alice []).0 ≡ passed) ↔ (seen alice 0 [] < 2))
admit-Tracks_example = admit-Tracks 1 60 2 10 alice [] [] Tracks-empty tt

-- A limit of 2, and requests to a page and to an exempt path.
abbrev limits : Settings ℕ
limits = record (defaults 0 0 1 15) {
  rate_limit_enabled = true;
  rate_limit_requests = 2;
  rate_limit_window_seconds = 60;
}

abbrev visit : Text → Request
visit path = record { path = path; authorization = none; client_host = some (codes "alice") }

abbrev traffic : Traffic
traffic =
    (10, visit (codes "/a"))
    ∷ (20, visit (codes "/healthz"))
    ∷ (30, visit (codes "/a"))
    ∷ (59, visit (codes "/a"))
    ∷ (61, visit (codes "/a"))
    ∷ []

served-le-limit_example : served (λ s. s) 1 limits alice 0 traffic [] ≤ 2
served-le-limit_example = served-le-limit (λ s. s) 1 limits alice 0 traffic refl (omega arith)

-- Two of the three in the first window are passed on.
served-two : served (λ s. s) 1 limits alice 0 traffic [] ≡ 2
unfolding served dispatch admit is_exempt client_key Dict.lookup Dict.insert starts_with next_count
served-two = refl
