-- ===== src/Tests/Source/Harness.antt =====
-- The tests of store/src/simulation.rs.
use tic_tac_tussle.Base.{
  ℕ, ◌≡◌, refl, Bool, false, List, [], ◌∷◌, ok, or_panic, get_elem?, length, ◌>>=◌, ◌>>◌, ◌==◌,
}
use tic_tac_tussle.Base.Vec
use tic_tac_tussle.State.{default}
use tic_tac_tussle.Commands.{place_tile}
use tic_tac_tussle.Events.{GameEvent, player_joined, game_started, tile_placed}
use tic_tac_tussle.Board.{winning_symbol, is_full}
use tic_tac_tussle.Decider.{evolve, fold_events, hydrate, decide}
use tic_tac_tussle.Simulation.{
  from_log, from_log_up_to, step_forward, branch_with_command, run_loop, run_to_end,
}
use tic_tac_tussle.Tests.Source.{Test, assert, unwrap, run_all}

abbrev log : List GameEvent
log = player_joined 1 "Alice" ∷ player_joined 2 "Bob" ∷ game_started 1 ∷ []

abbrev simulation_harness_step_through : Test
simulation_harness_step_through = do
  harness ← or_panic (from_log_up_to log 0)
  assert (harness.cursor == 0)
  assert (harness.state.players.0 == 0)
  stepped ← or_panic (step_forward harness)
  assert (stepped.0.cursor == 1)
  assert (stepped.0.state.players.0 == 1)
  finished ← run_to_end stepped.0
  assert (finished.cursor == 3)
  assert (finished.state.players.1 == 2)
  assert (finished.state.active_player_id == 1)

abbrev is_placed_at : ℕ → GameEvent → Bool
is_placed_at i (tile_placed p at) = at == i
is_placed_at i _ = false

abbrev simulation_harness_branching : Test
simulation_harness_branching = do
  harness ← or_panic (from_log log)
  branch ← unwrap (branch_with_command harness (place_tile 1 0))
  assert (length branch.0 == 1)
  first ← or_panic (get_elem? branch.0 0)
  assert (is_placed_at 0 first)
  assert (branch.1.active_player_id == 2)
  assert (harness.state.active_player_id == 1)

-- They both pass.
harness_passes :
    run_all (simulation_harness_step_through ∷ simulation_harness_branching ∷ []) ≡ ok tt
unfolding from_log from_log_up_to step_forward branch_with_command run_loop run_to_end decide evolve
    fold_events hydrate default winning_symbol is_full Vec.replicate Vec.set Vec.all Vec.get_elem?
harness_passes = refl
