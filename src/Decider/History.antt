-- ===== src/Decider/History.antt =====
-- store/src/decider.rs: the event logs that a game can have.
use tic_tac_tussle.Base.{
  ◌≡◌, some, List, [], ◌∷◌, ◌++◌, ok, Option-cases, inl, inr, arith, refl, ◌∙◌, ap, subst,
}
use tic_tac_tussle.State.{GameState, default}
use tic_tac_tussle.Commands.{GameCommand}
use tic_tac_tussle.Events.{GameEvent}
use tic_tac_tussle.Decider.{evolve, fold_events, hydrate, decide}
use tic_tac_tussle.Decider.Result.{result_state, decide-fold_events}
use tic_tac_tussle.Decider.Invariant.{IsValid, default-IsValid, result_state-IsValid}

-- A log grows by the events that `decide` gives in the state that the log hydrates to.
pub data IsHistory : List GameEvent → Type 0 where
  fresh : IsHistory []
  accepted :
      {l l' new : List GameEvent} {s : GameState} (c : GameCommand)
      → IsHistory l
      → hydrate l ≡ some s
      → decide s c ≡ ok new
      → l' ≡ l ++ new
      → IsHistory l'

-- Replaying a log in two parts is replaying it in one.
pub fold_events-append :
    (s : GameState) (l r : List GameEvent) {t : GameState}
    → fold_events s l ≡ some t
    → fold_events s (l ++ r) ≡ fold_events t r
unfolding fold_events
fold_events-append s [] r h = ground arith
fold_events-append s (e ∷ l) r {t} h = elim (Option-cases (evolve s e)) [
  | inl p ↦ absurd (cc (rw (p, fold_events) at h))
  | inr (u, p) ↦ rw (p, fold_events) (fold_events-append u l r (rw (p, fold_events) at h))
]

-- Appending the events of an accepted command leads from the hydrated state to its result.
pub hydrate-append :
    (l : List GameEvent) (c : GameCommand) {s : GameState} {new : List GameEvent}
    → hydrate l ≡ some s
    → decide s c ≡ ok new
    → hydrate (l ++ new) ≡ some (result_state s c)
unfolding hydrate
hydrate-append l c {s} {new} h d = fold_events-append default l new h ∙ decide-fold_events s c d

-- The first events of a list that replays replay too.
pub fold_events-prefix :
    (s : GameState) (l r : List GameEvent) {t : GameState}
    → fold_events s (l ++ r) ≡ some t
    → (u : GameState) × (fold_events s l ≡ some u)
unfolding fold_events
fold_events-prefix s [] r h = (s, refl)
fold_events-prefix s (e ∷ l) r h = elim (Option-cases (evolve s e)) [
  | inl stuck ↦ cc (rw (fold_events, stuck) at h)
  | inr (n, run) ↦
      let (u, k) = fold_events-prefix n l r (rw (fold_events, run) at h) in
      (u, rw (fold_events, run) k)
]

-- Every log of a game hydrates, without a panic, to a valid state.
pub hydrate-IsValid :
    {l : List GameEvent} → IsHistory l → (s : GameState) × (hydrate l ≡ some s) × IsValid s
unfolding hydrate
hydrate-IsValid fresh = (default, refl, default-IsValid)
hydrate-IsValid (accepted {s = s} c h e d q) =
    let (t, f, v) = hydrate-IsValid h in
    let same : t ≡ s = cc in
    (
      result_state s c,
      ap hydrate q ∙ hydrate-append _ c e d,
      result_state-IsValid s c d (subst IsValid same v),
    )
