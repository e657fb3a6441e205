-- ===== src/Service/Monad.antt =====
-- server/src/game_service.rs: the service's fields, and its methods' calls in sequence. A state
-- stays as it was left when an error returns early, or a panic unwinds.
use tic_tac_tussle.Base.{refl, ◌≢◌, ◌≡◌, Bool, true, false, Outcome, ok, err, panic}
use tic_tac_tussle.Store.{EventStore}
use tic_tac_tussle.Ports.{Action}

pub record GameService (P N : Type 0) : Type 0 where
  pub store : EventStore
  pub publisher : P
  pub broadcaster : N

module _ {E S : Type 0} where
  abbrev pub pure : {A : Type 0} → A → Action E S A
  pure a s = (ok a, s)

  infixl 5 ◌>>=◌ ◌>>◌
  abbrev pub ◌>>=◌ : {A B : Type 0} → Action E S A → (A → Action E S B) → Action E S B
  ◌>>=◌ m f s =
      let (r, t) = m s in elim r [ ok a ↦ f a t | err e ↦ (err e, t) | panic ↦ (panic, t) ]

  abbrev pub ◌>>◌ : {A B : Type 0} → Action E S A → Action E S B → Action E S B
  m >> k = m >>= λ _. k

  abbrev pub gets : {A : Type 0} → (S → A) → Action E S A
  gets f s = (ok (f s), s)

  abbrev pub lift : {A : Type 0} → Outcome E A → Action E S A
  lift r s = (r, s)

  abbrev pub raise_if : Bool → E → Action E S (Unit {0})
  raise_if true e s = (err e, s)
  raise_if false e s = (ok tt, s)

  -- `if let Err(e) = … { warn!(…) }`: an error goes no further than the server's own log.
  abbrev pub warn_on_err : Action E S (Unit {0}) → Action E S (Unit {0})
  warn_on_err m s =
      let (r, t) = m s in elim r [ ok a ↦ (ok tt, t) | err e ↦ (ok tt, t) | panic ↦ (panic, t) ]

module _ {E S A B : Type 0} where
  -- After a call that succeeds the next one runs on the state that it left.
  pub bind_ok :
      (m : Action E S A) (f : A → Action E S B) (s : S) {a : A}
      → (m s).0 ≡ ok a
      → (m >>= f) s ≡ f a (m s).1
  bind_ok m f s h = rw (h, ◌>>=◌)

  pub bind_returns :
      (m : Action E S A) (f : A → Action E S B) (s : S)
      → (m s).0 ≢ panic
      → ((a : A) (t : S) → (f a t).0 ≢ panic)
      → ((m >>= f) s).0 ≢ panic
  bind_returns m f s h k = go (m s) h
    where
      next : Outcome E A × S → Outcome E B × S
      next r = elim r.0 [ ok a ↦ f a r.1 | err e ↦ (err e, r.1) | panic ↦ (panic, r.1) ]

      go : (r : Outcome E A × S) → r.0 ≢ panic → (next r).0 ≢ panic
      go (ok a, t) h = k a t
      go (err e, t) h = λ q. cc
      go (panic, t) h = absurd (h refl)

abbrev pub map_err : {E F A : Type 0} → (E → F) → Outcome E A → Outcome F A
map_err f (ok a) = ok a
map_err f (err e) = err (f e)
map_err f panic = panic
