-- ===== src/Base/Outcome.antt =====
-- The exceptions of app/services/exceptions.py and of the libraries that the services meet, and
-- code that reads and writes a state and may raise. What was written before a raise stays written.
use mathlib.Core.Bool.{Bool, true, false}
use mathlib.Core.Option.{Option, none, some}
use Prim.Native.Nat.{ℕ}
use mathlib.Core.List.{List}
use mathlib.Core.Path.{◌≡◌, refl}
use native.Mathlib.Omega.{arith}
use mathlib.Core.Logic.{◌⊎◌, inl, inr}

pub data Error : Type 0 where
  -- app/services/exceptions.py
  email_already_exists : List ℕ → Error
  invalid_credentials : Error
  not_found_error : Error
  permission_denied : Error
  -- app/services/ingestion
  unsupported_document_type : Error
  url_fetch_error : Error
  -- Python and SQLAlchemy
  value_error : Error
  integrity_error : Error
  zero_division_error : Error
  -- FastAPI's `HTTPException`, by its status
  http_exception : ℕ → Error
  -- any other exception of a library or a provider
  other_error : ℕ → Error

pub data Result {ℓ} (A : Type ℓ) : Type ℓ where
  ok : A → Result A
  err : Error → Result A

abbrev pub and_then {ℓ κ} : {A : Type ℓ} {B : Type κ} → Result A → (A → Result B) → Result B
and_then (ok a) f = f a
and_then (err e) f = err e

abbrev pub Exec {ℓ} : Type ℓ → Type ℓ → Type ℓ
Exec S A = S → Result A × S

module _ {ℓ} {S A : Type ℓ} where
  abbrev pub pure : A → Exec S A
  pure a s = (ok a, s)

  abbrev pub raise : Error → Exec S A
  raise e s = (err e, s)

  abbrev pub lift : Result A → Exec S A
  lift r s = (r, s)

  abbrev pub gets : (S → A) → Exec S A
  gets f s = (ok (f s), s)

  abbrev pub or_raise : Option A → Error → Exec S A
  or_raise none e = raise e
  or_raise (some a) e = pure a

module _ {ℓ} {S A B : Type ℓ} where
  -- What comes after a call, unless the call raised.
  abbrev after : Result A → (A → Exec S B) → Exec S B
  after (err e) k s = (err e, s)
  after (ok a) k s = k a s

  infixl 5 ◌>>=◌ ◌>>◌
  abbrev pub ◌>>=◌ : Exec S A → (A → Exec S B) → Exec S B
  ◌>>=◌ call k s = let (outcome, s') = call s in after outcome k s'

  abbrev pub ◌>>◌ : Exec S A → Exec S B → Exec S B
  call >> next = call >>= λ value. next

abbrev pub modify : {S : Type 0} → (S → S) → Exec S Unit
modify f s = (ok tt, f s)

abbrev pub raise_if : {S : Type 0} → Bool → Error → Exec S Unit
raise_if true e s = (err e, s)
raise_if false e s = (ok tt, s)

pub Result-cases {ℓ} :
    {A : Type ℓ} (r : Result A) → ((a : A) × (r ≡ ok a)) ⊎ ((e : Error) × (r ≡ err e))
Result-cases (ok a) = inl (a, refl)
Result-cases (err e) = inr (e, refl)

pub ok_same : {A : Type 0} {a b : A} → ok a ≡ ok b → a ≡ b
ok_same e = ground arith

pub err_same : {A : Type 0} {a b : Error} → ◌≡◌ {A = Result A} (err a) (err b) → a ≡ b
err_same e = ground arith

-- Where a chain returned, its first call did.
pub and_then-ok {ℓ} :
    {A B : Type ℓ} (r : Result A) (f : A → Result B) (b : B)
    → and_then r f ≡ ok b
    → (a : A) × (r ≡ ok a) × (f a ≡ ok b)
and_then-ok (ok a) f b e = (a, refl, e)
and_then-ok (err x) f b e = absurd (ground arith)
