-- ===== src/RateLimit/Served.antt =====
-- The limiter as `dispatch` runs it, on the requests as they arrive: how many are passed on.
use nexus_ai.Base.{
  ℕ, ◌+◌, ◌*◌, ◌/◌, ◌≤◌, ◌≡◌, refl, ◌&&◌, List, [], ◌∷◌, nat_beq, if◌then◌else◌, list_eq, nat_eq,
  ◌==◌, arith, true, false, not, ap, Bool-cases, inl, inr,
}
use nexus_ai.Base.Text.{Text}
use nexus_ai.Config.{Settings}
use nexus_ai.RateLimit.{Hits, Request, passed, is_exempt, client_key, dispatch}
use native.Mathlib.Nat.{le_trans}
use nexus_ai.RateLimit.Window.{Arrivals, IsAscending, passes, passes-le-limit}

-- The requests that arrive, with their times.
abbrev pub Traffic : Type 0
Traffic = List (ℕ × Request)

abbrev pub IsInOrder : ℕ → Traffic → Type 0
IsInOrder last [] = Unit
IsInOrder last ((now, request) ∷ rest) = (last ≤ now) × IsInOrder now rest

-- What the limiter counts: the requests whose path is not exempt, by the client's key.
unfoldable counted_of : (Text → Text) → Traffic → Arrivals
counted_of sha256_hex [] = []
counted_of sha256_hex ((now, request) ∷ rest) =
    let later = counted_of sha256_hex rest in
    if is_exempt request.path then later else (now, client_key sha256_hex request) ∷ later

IsAscending-weaken :
    (a b : ℕ) (arrivals : Arrivals) → a ≤ b → IsAscending b arrivals → IsAscending a arrivals
IsAscending-weaken a b [] h asc = tt
IsAscending-weaken a b ((now, key) ∷ rest) h asc = (le_trans h asc.0, asc.1)

counted_of-IsAscending :
    (sha256_hex : Text → Text) (last : ℕ) (traffic : Traffic)
    → IsInOrder last traffic
    → IsAscending last (counted_of sha256_hex traffic)
unfolding counted_of
counted_of-IsAscending sha256_hex last [] h = tt
counted_of-IsAscending sha256_hex last ((now, request) ∷ rest) h =
    let ih = counted_of-IsAscending sha256_hex now rest h.1 in
    elim (Bool-cases (is_exempt request.path)) [
      | inl exempt ↦ rw exempt (IsAscending-weaken last now _ h.0 ih)
      | inr counts ↦ rw counts (h.0, ih)
    ]

module _ {ℓ} {F : Type ℓ} (sha256_hex : Text → Text) (hz : ℕ) (settings : Settings F) where
  -- The requests of `client` in the window `w` to paths that are not exempt, as far as `dispatch`
  -- passes them on.
  unfoldable pub served : Text → ℕ → Traffic → Hits → ℕ
  served client w [] hits = 0
  served client w ((now, request) ∷ rest) hits =
      let (verdict, hits') = dispatch sha256_hex hz settings now request hits in
      (if not (is_exempt request.path)
          && client_key sha256_hex request == client
          && nat_beq (now / (settings.rate_limit_window_seconds * hz)) w
        then elim verdict [ passed ↦ 1 | _ ↦ 0 ]
        else 0)
      + served client w rest hits'

  served-passes :
      (client : Text) (w : ℕ) (traffic : Traffic) (hits : Hits)
      → settings.rate_limit_enabled ≡ true
      → nat_beq settings.rate_limit_window_seconds 0 ≡ false
      → served client w traffic hits
        ≡ passes hz settings.rate_limit_window_seconds settings.rate_limit_requests client w
            (counted_of sha256_hex traffic)
            hits
  unfolding served passes counted_of dispatch
  served-passes client w [] hits on some_width = refl
  served-passes client w ((now, request) ∷ rest) hits on some_width =
      elim (Bool-cases (is_exempt request.path)) [
        | inl exempt ↦
            rw (on, exempt) (omega (arith, served-passes client w rest hits on some_width))
        | inr counts ↦
            rw (on, counts, some_width) (ap (◌+◌ _) (served-passes client w rest _ on some_width))
      ]

  served-broken :
      (client : Text) (w : ℕ) (traffic : Traffic) (hits : Hits)
      → settings.rate_limit_enabled ≡ true
      → nat_beq settings.rate_limit_window_seconds 0 ≡ true
      → served client w traffic hits ≡ 0
  unfolding served dispatch
  served-broken client w [] hits on no_width = refl
  served-broken client w ((now, request) ∷ rest) hits on no_width =
      let ih = served-broken client w rest hits on no_width in
      elim (Bool-cases (is_exempt request.path)) [
        | inl exempt ↦ rw (on, exempt) (omega (arith, ih))
        | inr counts ↦ rw (on, counts, no_width) (ground (arith, ih))
      ]

  -- Where the limiter is enabled: whatever requests arrive, while the clock never goes back, at
  -- most `rate_limit_requests` of one client in one window are passed on to paths that are not
  -- exempt, from a limiter that has counted nothing.
  pub served-le-limit :
      (client : Text) (w : ℕ) (traffic : Traffic)
      → settings.rate_limit_enabled ≡ true
      → IsInOrder 0 traffic
      → served client w traffic [] ≤ settings.rate_limit_requests
  served-le-limit client w traffic on ordered =
      elim (Bool-cases (nat_beq settings.rate_limit_window_seconds 0)) [
        | inl no_width ↦ rw (served-broken client w traffic [] on no_width) (omega arith)
        | inr some_width ↦ rw (served-passes client w traffic [] on some_width) (
            passes-le-limit hz settings.rate_limit_window_seconds settings.rate_limit_requests
              client w (counted_of sha256_hex traffic)
              (counted_of-IsAscending sha256_hex 0 traffic ordered))
      ]
