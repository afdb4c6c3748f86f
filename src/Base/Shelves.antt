-- ===== src/Base/Shelves.antt =====
-- A dictionary of lists that keep their last entries, as the semantic cache and the agent's memory
-- have one by workspace, against all that was put into it.
use mathlib.Core.List.{List, [], ◌∷◌, ◌++◌, append-nil, append_assoc}
use mathlib.Core.Path.{◌≡◌, sym}
use Prim.Native.Nat.{ℕ}
use native.Mathlib.Omega.{arith}
use nexus_ai.Base.Tests.{if◌then◌else◌, nat_beq}
use nexus_ai.Base.Equality.{nat_eq}
use nexus_ai.Base.Bounded.{push_bounded, last_of, last_of-nil, push_bounded-last_of}
use nexus_ai.Base.Dict
use nexus_ai.Base.Dict.{Dict}

module _ {E : Type 0} where
  abbrev pub on_shelf : ℕ → Dict ℕ (List E) → List E
  on_shelf key shelves = Dict.get_or key shelves []

  abbrev pub push_at : ℕ → ℕ → E → Dict ℕ (List E) → Dict ℕ (List E)
  push_at most key entry shelves =
      Dict.insert key (push_bounded most entry (on_shelf key shelves)) shelves

  -- Putting everything in, one after the other.
  abbrev pub push_all : ℕ → Dict ℕ (List E) → List (ℕ × E) → Dict ℕ (List E)
  push_all most shelves [] = shelves
  push_all most shelves ((key, entry) ∷ h) = push_all most (push_at most key entry shelves) h

  -- What was put in under a key, oldest first.
  unfoldable pub all_under : ℕ → List (ℕ × E) → List E
  all_under key [] = []
  all_under key ((k, entry) ∷ h) =
      let rest = all_under key h in if nat_beq k key then entry ∷ rest else rest

  all_under-append :
      (key k : ℕ) (entry : E) (h : List (ℕ × E))
      → all_under key (h ++ (k, entry) ∷ [])
        ≡ (if nat_beq k key then all_under key h ++ entry ∷ [] else all_under key h)
  unfolding all_under
  all_under-append key k entry [] = ground arith
  all_under-append key k entry ((j, x) ∷ h) = ground (arith, all_under-append key k entry h)

  pub on_shelf-push_at :
      (most k key : ℕ) (entry : E) (shelves : Dict ℕ (List E))
      → on_shelf key (push_at most k entry shelves) ≡ (
          if nat_beq k key
          then push_bounded most entry (on_shelf key shelves)
          else on_shelf key shelves)
  on_shelf-push_at most k key entry shelves =
      ground
        (arith, Dict.lookup-insert k key (push_bounded most entry (on_shelf k shelves)) shelves)

  abbrev Holds : ℕ → Dict ℕ (List E) → List (ℕ × E) → Type 0
  Holds most shelves h = (key : ℕ) → on_shelf key shelves ≡ last_of most (all_under key h)

  push_at-Holds :
      (most k : ℕ) (entry : E) (shelves : Dict ℕ (List E)) (h : List (ℕ × E))
      → Holds most shelves h
      → Holds most (push_at most k entry shelves) (h ++ (k, entry) ∷ [])
  push_at-Holds most k entry shelves h held key = ground (
    arith,
    on_shelf-push_at most k key entry shelves,
    all_under-append key k entry h,
    held key,
    push_bounded-last_of most entry (all_under key h),
  )

  push_all-Holds :
      (most : ℕ) (shelves : Dict ℕ (List E)) (h more : List (ℕ × E))
      → Holds most shelves h
      → Holds most (push_all most shelves more) (h ++ more)
  push_all-Holds most shelves h [] held = rw append-nil held
  push_all-Holds most shelves h ((k, entry) ∷ more) held =
      rw (← append_assoc h ((k, entry) ∷ []) more) (
        push_all-Holds most (push_at most k entry shelves) (h ++ (k, entry) ∷ []) more
          (push_at-Holds most k entry shelves h held))

  -- A dictionary that began empty has the last entries of all that was put in, under each key.
  pub on_shelf-push_all :
      (most : ℕ) (h : List (ℕ × E)) (key : ℕ)
      → on_shelf key (push_all most [] h) ≡ last_of most (all_under key h)
  unfolding Dict.lookup all_under
  on_shelf-push_all most h = push_all-Holds most [] [] h (λ key. sym (last_of-nil most))
