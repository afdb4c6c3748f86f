-- ===== src/Process/Calls.antt =====
-- How a chain of calls on a process ends: with a value and `P`, or with an exception and `R`.
use nexus_ai.Base.{
  ok_same, err_same, ◌≡◌, refl, Exec, Result, ok, err, Error, lift, ◌>>=◌, ◌⊎◌, inl, inr, arith,
}
use nexus_ai.Ingestion.{on_vectors}
use nexus_ai.Process.{Process, on_world}

abbrev pub Ends : {A T : Type 0} → (A → T → Type 0) → (Error → T → Type 0) → Result A × T → Type 0
Ends P R (r, t) = ((a : _) × (r ≡ ok a) × P a t) ⊎ ((e : Error) × (r ≡ err e) × R e t)

module _ {A B F S : Type 0} (P : B → Process F S → Type 0) (R : Error → Process F S → Type 0)
    (k : A → Exec (Process F S) B) (p : Process F S) where
  pub then-lift :
      (r : Result A)
      → ((a : A) → r ≡ ok a → Ends P R (k a p))
      → ((e : Error) → R e p)
      → Ends P R ((lift r >>= k) p)
  then-lift (ok a) h raised = h a refl
  then-lift (err e) h raised = inr (e, refl, raised e)

  abbrev pub with_vectors : S → Process F S
  with_vectors s = record p { world = record p.world { vectors = s } }

  then_answer :
      (x : Result A × S)
      → ((a : A) (s : S) → x ≡ (ok a, s) → Ends P R (k a (with_vectors s)))
      → ((e : Error) (s : S) → R e (with_vectors s))
      → Ends P R (((λ q. (x.0, with_vectors x.1)) >>= k) p)
  then_answer (ok a, s) h raised = h a s refl
  then_answer (err e, s) h raised = inr (e, refl, raised e s)

  pub then-on_vectors :
      (m : Exec S A)
      → ((a : A) (s : S) → m p.world.vectors ≡ (ok a, s) → Ends P R (k a (with_vectors s)))
      → ((e : Error) (s : S) → R e (with_vectors s))
      → Ends P R ((on_world (on_vectors m) >>= k) p)
  then-on_vectors m h raised = then_answer (m p.world.vectors) h raised

module _ {A B T : Type 0} (P : B → T → Type 0) (R : Error → T → Type 0) (k : A → Exec T B)
    (P' : A → T → Type 0) (R' : Error → T → Type 0) where
  then_outcome :
      (x : Result A × T)
      → Ends P' R' x
      → ((a : A) (t' : T) → P' a t' → Ends P R (k a t'))
      → ((e : Error) (t' : T) → R' e t' → R e t')
      → Ends P R (((λ u. x) >>= k) x.1)
  then_outcome (ok a, t') (inl (b, e, p)) h raised = h a t' (rw (ok_same e) p)
  then_outcome (ok a, t') (inr (e', bad, q)) h raised = absurd (ground arith)
  then_outcome (err e, t') (inl (b, bad, p)) h raised = absurd (ground arith)
  then_outcome (err e, t') (inr (e', same, q)) h raised =
      inr (e, refl, raised e t' (rw (err_same same) q))

  -- On any state: the next call runs where the first one returned.
  pub then_call :
      (m : Exec T A) (t : T)
      → Ends P' R' (m t)
      → ((a : A) (t' : T) → P' a t' → Ends P R (k a t'))
      → ((e : Error) (t' : T) → R' e t' → R e t')
      → Ends P R ((m >>= k) t)
  then_call m t = then_outcome (m t)
