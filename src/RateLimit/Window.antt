-- ===== src/RateLimit/Window.antt =====
-- The limiter against the history of the requests that it counted: what it stores, and that a
-- request passes exactly while fewer than `limit` requests of its client fell in its window.
use nexus_ai.Base.{
  ℕ, zero, suc, ◌+◌, ◌*◌, ◌/◌, ◌≤◌, ◌<◌, min, ◌≡◌, ◌↔◌, refl, ◌&&◌, Option, none, some, List, [],
  ◌∷◌, nat_beq, if◌then◌else◌, All, list_eq, nat_eq, list_beq_iff, ◌==◌, arith,
}
use nexus_ai.Base.Dict
use nexus_ai.Base.Text.{Text}
use nexus_ai.RateLimit.{Hits, passed, admit, next_count}
use native.Mathlib.Nat.{le_trans}
use nexus_ai.Base.{All-map_imp}

-- The requests that the limiter counted, latest first: a client's key and the window.
abbrev pub History : Type 0
History = List (Text × ℕ)

-- How many requests of the client fell in the window.
unfoldable pub seen : Text → ℕ → History → ℕ
seen key window [] = 0
seen key window ((k, w) ∷ h) = (if k == key && nat_beq w window then 1 else 0) + seen key window h

-- The client's latest window, with the number of its requests there.
unfoldable pub latest : Text → History → Option (ℕ × ℕ)
latest key [] = none
latest key ((k, w) ∷ h) =
    let rest = latest key h in if k == key then some (w, 1 + seen key w h) else rest

-- Time does not run backwards.
abbrev pub IsMonotone : History → Type 0
IsMonotone [] = Unit
IsMonotone ((k, w) ∷ h) = All (λ e. e.1 ≤ w) h × IsMonotone h

pub record Tracks (hits : Hits) (h : History) : Type 0 where
  pub monotone : IsMonotone h
  pub stored : (key : Text) → Dict.lookup key hits ≡ latest key h

seen_below : (key : Text) (v w : ℕ) (h : History) → All (λ e. e.1 ≤ v) h → v < w → seen key w h ≡ 0
unfolding seen
seen_below key v w [] a lt = refl
seen_below key v w ((k, u) ∷ h) a lt = ground (arith, seen_below key v w h a.1 lt)

-- In a history up to `w`, the limiter's counter is the number of requests seen in `w`.
next_count-latest :
    (key : Text) (w : ℕ) (h : History)
    → IsMonotone h
    → All (λ e. e.1 ≤ w) h
    → next_count (latest key h) w ≡ 1 + seen key w h
unfolding next_count latest seen
next_count-latest key w [] m a = refl
next_count-latest key w ((k, u) ∷ h) m a =
    ground (arith, next_count-latest key w h m.1 a.1, seen_below key u w h m.0, list_beq_iff k key)

module _ (hz window_seconds limit now : ℕ) (key : Text) where
  abbrev pub window_of : ℕ
  window_of = now / (window_seconds * hz)

  abbrev counted : Hits → Hits
  counted hits = Dict.insert key (window_of, next_count (Dict.lookup key hits) window_of) hits

  admit-counted : (hits : Hits) → (admit hz window_seconds limit now key hits).1 ≡ counted hits
  unfolding admit
  admit-counted hits = ground arith

  admit-passed :
      (hits : Hits)
      → ((admit hz window_seconds limit now key hits).0 ≡ passed)
        ↔ (next_count (Dict.lookup key hits) window_of ≤ limit)
  unfolding admit
  admit-passed hits = ground arith

  stored-counted :
      (hits : Hits) (h : History)
      → Tracks hits h
      → All (λ e. e.1 ≤ window_of) h
      → (k : Text) → Dict.lookup k (counted hits) ≡ latest k ((key, window_of) ∷ h)
  unfolding latest
  stored-counted hits h t a k = ground (
    arith,
    Dict.lookup-insert key k (window_of, next_count (Dict.lookup key hits) window_of) hits,
    next_count-latest key window_of h t.monotone a,
    t.stored key,
    t.stored k,
    list_beq_iff key k,
  )

  -- One request more, in no earlier window than those before: the limiter still tracks the history,
  -- and it passes the request exactly if fewer than `limit` requests of the client fell in its
  -- window before.
  pub admit-Tracks :
      (hits : Hits) (h : History)
      → Tracks hits h
      → All (λ e. e.1 ≤ window_of) h
      → Tracks (admit hz window_seconds limit now key hits).1 ((key, window_of) ∷ h)
        × (((admit hz window_seconds limit now key hits).0 ≡ passed)
            ↔ (seen key window_of h < limit))
  admit-Tracks hits h t a =
      let n = next_count-latest key window_of h t.monotone a in
      let s = t.stored key in
      (
        record {
          monotone = (a, t.monotone);
          stored = λ k. rw (admit-counted hits) (stored-counted hits h t a k);
        },
        ((λ p. ground (arith, (admit-passed hits).0 p)), λ q. (admit-passed hits).1 (ground arith)),
      )

-- A sequence of counted requests: when each came, and its client's key.
abbrev pub Arrivals : Type 0
Arrivals = List (ℕ × Text)

-- The clock of the process never goes back, from `last` on.
abbrev pub IsAscending : ℕ → Arrivals → Type 0
IsAscending last [] = Unit
IsAscending last ((now, key) ∷ rest) = (last ≤ now) × IsAscending now rest

pub Tracks-empty : Tracks [] []
unfolding latest Dict.lookup
Tracks-empty = record { monotone = tt; stored = λ key. refl }

div_mono : (a b d : ℕ) → a ≤ b → a / d ≤ b / d
div_mono a b zero h = omega arith
div_mono a b (suc d) h = grind arith

module _ (hz window_seconds limit : ℕ) where
  -- The requests of `client` in the window `w` that are passed on, of those that arrive.
  unfoldable pub passes : Text → ℕ → Arrivals → Hits → ℕ
  passes client w [] hits = 0
  passes client w ((now, key) ∷ rest) hits =
      let (verdict, hits') = admit hz window_seconds limit now key hits in
      (if key == client && nat_beq (now / (window_seconds * hz)) w
        then elim verdict [ passed ↦ 1 | _ ↦ 0 ]
        else 0)
      + passes client w rest hits'

  passes-seen :
      (client : Text) (w : ℕ) (arrivals : Arrivals) (hits : Hits) (h : History) (last : ℕ)
      → Tracks hits h
      → All (λ e. e.1 ≤ last / (window_seconds * hz)) h
      → IsAscending last arrivals
      → passes client w arrivals hits + min (seen client w h) limit ≤ limit
  unfolding passes seen
  passes-seen client w [] hits h last t a asc = omega arith
  passes-seen client w ((now, key) ∷ rest) hits h last t a asc =
      let d = window_seconds * hz in
      let up = All-map_imp (λ e p. le_trans p (div_mono last now d asc.0)) h a in
      let (t', exact) = admit-Tracks hz window_seconds limit now key hits h t up in
      let (verdict, hits') = admit hz window_seconds limit now key hits in
      let ih =
        passes-seen client w rest hits' ((key, now / d) ∷ h) now t' (omega arith, up) asc.1 in
      ground (arith, ih, exact.0, exact.1, list_beq_iff key client)

  -- Whatever arrives, in any order of clients, while the clock never goes back: at most `limit`
  -- requests of one client are passed on in one window, from a limiter that has counted nothing.
  pub passes-le-limit :
      (client : Text) (w : ℕ) (arrivals : Arrivals)
      → IsAscending 0 arrivals
      → passes client w arrivals [] ≤ limit
  passes-le-limit client w arrivals asc =
      omega (arith, passes-seen client w arrivals [] [] 0 Tracks-empty tt asc)
