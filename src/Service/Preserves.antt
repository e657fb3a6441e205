-- ===== src/Service/Preserves.antt =====
-- Calls in sequence that lead to an invariant of the state and keep it, on every path through them.
use tic_tac_tussle.Base.{Outcome, ok, err, panic}
use tic_tac_tussle.Ports.{Action}
use tic_tac_tussle.Service.Monad.{pure, ◌>>=◌, warn_on_err}

pub record Leads {E S A : Type 0} (Pre Post : S → Type 0) (m : Action E S A) : Type 0 where
  pub apply : (s : S) → Pre s → Post (m s).1

abbrev pub Preserves : {E S A : Type 0} → (S → Type 0) → Action E S A → Type 0
Preserves Inv m = Leads Inv Inv m

module _ {E S : Type 0} (Inv : S → Type 0) where
  pub pure-Preserves : Preserves Inv (pure {E = E} {S = S} {A = Unit {0}} tt)
  pure-Preserves = record { apply = λ s h. h }

  pub bind-Preserves :
      {A B : Type 0} {Pre : S → Type 0} (m : Action E S A) (f : A → Action E S B)
      → Leads Pre Inv m
      → ((a : A) → Preserves Inv (f a))
      → Leads Pre Inv (m >>= f)
  bind-Preserves {A} {B} m f k l = record { apply = λ s h. go (m s) (k.apply s h) }
    where
      next : Outcome E A × S → Outcome E B × S
      next r = elim r.0 [ ok a ↦ f a r.1 | err e ↦ (err e, r.1) | panic ↦ (panic, r.1) ]

      go : (r : Outcome E A × S) → Inv r.1 → Inv (next r).1
      go (ok a, t) h = (l a).apply t h
      go (err e, t) h = h
      go (panic, t) h = h

  pub warn_on_err-Preserves :
      {Pre : S → Type 0} (m : Action E S (Unit {0}))
      → Leads Pre Inv m
      → Leads Pre Inv (warn_on_err m)
  warn_on_err-Preserves m k = record { apply = λ s h. go (m s) s (k.apply s h) }
    where
      go : (r : Outcome E (Unit {0}) × S) (s : S) → Inv r.1 → Inv (warn_on_err (λ u. r) s).1
      go (ok a, t) s h = h
      go (err e, t) s h = h
      go (panic, t) s h = h
