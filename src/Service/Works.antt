-- ===== src/Service/Works.antt =====
-- Calls in sequence that succeed, and lead from one condition on the state to another.
use tic_tac_tussle.Base.{◌≡◌, ◌≢◌, refl, Outcome, ok, err, panic}
use tic_tac_tussle.Ports.{Action}
use tic_tac_tussle.Service.Monad.{◌>>◌, warn_on_err, bind_ok}

-- A call succeeds, and leads from the one condition to the other.
pub record Works {E S : Type 0} (Pre Post : S → Type 0) (m : Action E S (Unit {0})) : Type 0 where
  pub apply : (s : S) → Pre s → ((m s).0 ≡ ok tt) × Post (m s).1

module _ {E S : Type 0} {Pre Post : S → Type 0} where
  pub bind-Works :
      {Mid : S → Type 0} (m k : Action E S (Unit {0}))
      → Works Pre Mid m
      → Works Mid Post k
      → Works Pre Post (m >> k)
  bind-Works m k w v = record {
    apply =
        λ s h. let (run, mid) = w.apply s h in rw (bind_ok m (λ u. k) s run) (v.apply (m s).1 mid);
  }

  -- A warning hides an error, but no panic.
  pub warn_on_err-Works :
      (m : Action E S (Unit {0}))
      → ((s : S) → Pre s → ((m s).0 ≢ panic) × Post (m s).1)
      → Works Pre Post (warn_on_err m)
  warn_on_err-Works m w = record {
    apply = λ s h. let (returns, post) = w s h in go (m s) returns post;
  }
    where
      next : Outcome E (Unit {0}) × S → Outcome E (Unit {0}) × S
      next r = elim r.0 [ ok a ↦ (ok tt, r.1) | err e ↦ (ok tt, r.1) | panic ↦ (panic, r.1) ]

      go :
          (r : Outcome E (Unit {0}) × S)
          → r.0 ≢ panic
          → Post r.1
          → ((next r).0 ≡ ok tt) × Post (next r).1
      go (ok a, t) h p = (refl, p)
      go (err e, t) h p = (refl, p)
      go (panic, t) h p = absurd (h refl)
