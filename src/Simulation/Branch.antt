-- ===== src/Simulation/Branch.antt =====
-- store/src/simulation.rs: a branch of the harness is what the game itself would do next.
use tic_tac_tussle.Base.{
  ◌≡◌, ◌≢◌, ◌↔◌, some, List, ◌++◌, take, ok, err, panic, ap, ◌∙◌, Outcome, refl,
}
use tic_tac_tussle.State.{GameState}
use tic_tac_tussle.Commands.{GameCommand}
use tic_tac_tussle.Events.{GameEvent}
use tic_tac_tussle.Errors.{TicTacTussleError}
use tic_tac_tussle.Decider.{hydrate, decide}
use tic_tac_tussle.Decider.Result.{result_state, decide-fold_events}
use tic_tac_tussle.Decider.Branches.{decide_total}
use tic_tac_tussle.Decider.History.{hydrate-append}
use tic_tac_tussle.Simulation.{SimulationHarness, branch_with_command}
use tic_tac_tussle.Simulation.Replay.{IsSynced}

module _ (h : SimulationHarness) (c : GameCommand) where
  branch-ok :
      {evs : List GameEvent}
      → decide h.state c ≡ ok evs
      → branch_with_command h c ≡ ok (evs, result_state h.state c)
  unfolding branch_with_command
  branch-ok {evs} d = rw (d, decide-fold_events h.state c d)

  branch-err : {e : TicTacTussleError} → decide h.state c ≡ err e → branch_with_command h c ≡ err e
  unfolding branch_with_command
  branch-err d = rw d

  -- On a harness in step with its log, a branch succeeds exactly when `decide` accepts the command,
  -- with the same events, and the new state is that of the log up to the cursor followed by those
  -- events; it gives exactly the errors of `decide`; and it never panics.
  pub branch_lem :
      IsSynced h
      → ((evs : List GameEvent) (t : GameState)
          → (branch_with_command h c ≡ ok (evs, t))
            ↔ ((decide h.state c ≡ ok evs) × (hydrate (take h.cursor h.log ++ evs) ≡ some t)))
        × ((e : TicTacTussleError) → (branch_with_command h c ≡ err e) ↔ (decide h.state c ≡ err e))
        × (branch_with_command h c ≢ panic)
  branch_lem v = go (decide h.state c) refl
    where
      go :
          (r : Outcome TicTacTussleError (List GameEvent))
          → decide h.state c ≡ r
          → ((evs : List GameEvent) (t : GameState)
              → (branch_with_command h c ≡ ok (evs, t))
                ↔ ((decide h.state c ≡ ok evs) × (hydrate (take h.cursor h.log ++ evs) ≡ some t)))
            × ((e : TicTacTussleError)
                → (branch_with_command h c ≡ err e) ↔ (decide h.state c ≡ err e))
            × (branch_with_command h c ≢ panic)
      go (ok new) d =
          let run = branch-ok d in
          let after = hydrate-append (take h.cursor h.log) c v.replayed d in
          (
            λ evs t. (
              λ q.
                  let e : new ≡ evs = cc in
                  let f : result_state h.state c ≡ t = cc in (d ∙ ap ok e, rw (← e, ← f) after),
              λ q.
                  let e : new ≡ evs = cc in
                  let after' : hydrate (take h.cursor h.log ++ evs)
                      ≡ some (result_state h.state c) =
                    rw (← e) after in
                  cc,
            ),
            λ e. (λ q. absurd (cc), λ q. absurd (cc)),
            λ q. cc,
          )
      go (err e) d =
          let run = branch-err d in
          (λ evs t. (λ q. absurd (cc), λ q. absurd (cc q.0)), λ e'. (λ q. cc, λ q. cc), λ q. cc)
      go panic d = absurd (decide_total h.state c d)
