-- ===== src/Base/Calls.antt =====
-- What a call of the program comes to: a value, an error value that is returned, or a panic.
use mathlib.Core.Bool.{Bool, true, false}
use mathlib.Core.Option.{Option, none, some}
use mathlib.Core.Path.{◌≡◌, refl}
use mathlib.Core.Logic.{◌⊎◌, inl, inr}

pub data Outcome {ℓ} (E A : Type ℓ) : Type ℓ where
  ok : A → Outcome E A
  err : E → Outcome E A
  panic : Outcome E A

pub Outcome-cases :
    {E A : Type 0} (r : Outcome E A)
    → ((a : A) × (r ≡ ok a)) ⊎ ((e : E) × (r ≡ err e)) ⊎ (r ≡ panic)
Outcome-cases (ok a) = inl (a, refl)
Outcome-cases (err e) = inr (inl (e, refl))
Outcome-cases panic = inr (inr refl)

module _ {E : Type 0} where
  infixl 5 ◌>>=◌ ◌>>◌
  abbrev pub ◌>>=◌ : {A B : Type 0} → Outcome E A → (A → Outcome E B) → Outcome E B
  ok a >>= f = f a
  err e >>= f = err e
  panic >>= f = panic

  abbrev pub ◌>>◌ : {A B : Type 0} → Outcome E A → Outcome E B → Outcome E B
  m >> k = m >>= λ _. k

  -- An early `return Err(e)` under a test.
  abbrev pub err_if : Bool → E → Outcome E (Unit {0})
  err_if true e = err e
  err_if false e = ok tt

  -- A call that can panic and returns no error: `none` is the panic.
  abbrev pub or_panic : {A : Type 0} → Option A → Outcome E A
  or_panic none = panic
  or_panic (some a) = ok a

  -- `let Some(a) = … else { return … }`
  abbrev pub or_err : {A : Type 0} → Option A → E → Outcome E A
  or_err none e = err e
  or_err (some a) e = ok a
