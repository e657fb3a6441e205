-- ===== src/Simulation.antt =====
-- store/src/simulation.rs: `SimulationHarness`, which steps through a log and branches off it.
-- A constructor or method that replays events panics where the replay does: `none`, or `panic`.
pub mod Replay
pub mod Branch
use tic_tac_tussle.Base.{
  ℕ, zero, suc, ◌+◌, ◌-◌, ◌≡◌, Bool, true, false, not, Option, none, some, List, length, get_elem?,
  take, min, ltb, if◌then◌else◌, Outcome, ok, err, panic, ◌>>=◌, or_panic,
}
use tic_tac_tussle.State.{GameState}
use tic_tac_tussle.Commands.{GameCommand}
use tic_tac_tussle.Events.{GameEvent}
use tic_tac_tussle.Errors.{TicTacTussleError}
use tic_tac_tussle.Decider.{evolve, fold_events, hydrate, decide}

pub record SimulationHarness : Type 0 where
  pub log : List GameEvent
  pub cursor : ℕ
  pub state : GameState

-- `from_log`
unfoldable pub from_log : List GameEvent → Option SimulationHarness
from_log log = elim (hydrate log) [
  | some s ↦ some (record { log = log; cursor = length log; state = s })
  | none ↦ none
]

-- `from_log_up_to`
unfoldable pub from_log_up_to : List GameEvent → ℕ → Option SimulationHarness
from_log_up_to log n = elim (hydrate (take (min n (length log)) log)) [
  | some s ↦ some (record { log = log; cursor = min n (length log); state = s })
  | none ↦ none
]

-- `is_exhausted`
abbrev pub is_exhausted : SimulationHarness → Bool
is_exhausted h = not (ltb h.cursor (length h.log))

-- `step_forward`: the harness after the step, and whether a step was made.
unfoldable pub step_forward : SimulationHarness → Option (SimulationHarness × Bool)
step_forward h = if is_exhausted h then some (h, false) else elim (get_elem? h.log h.cursor) [
  | some e ↦ elim (evolve h.state e) [
    | some s ↦ some (record h { state = s; cursor = h.cursor + 1 }, true)
    | none ↦ none
  ]
  | none ↦ none
]

-- `rewind_to`
unfoldable pub rewind_to : SimulationHarness → ℕ → Option SimulationHarness
rewind_to h n = elim (hydrate (take (min n (length h.log)) h.log)) [
  | some s ↦ some (record h { cursor = min n (length h.log); state = s })
  | none ↦ none
]

-- `branch_with_command`, which leaves the harness as it is.
unfoldable pub branch_with_command :
    SimulationHarness → GameCommand → Outcome TicTacTussleError (List GameEvent × GameState)
branch_with_command h cmd = do
  events ← decide h.state cmd
  new_state ← or_panic (fold_events h.state events)
  ok (events, new_state)

-- The loop of `run_to_end`; `err tt` says that the fuel ran out.
unfoldable pub run_loop : ℕ → SimulationHarness → Outcome (Unit {0}) SimulationHarness
run_loop zero h = err tt
run_loop (suc fuel) h = elim (step_forward h) [
  | none ↦ panic
  | some (h', more) ↦ elim more [ true ↦ run_loop fuel h' | false ↦ ok h' ]
]

-- `run_to_end`: a round for each event left, and one that finds none.
unfoldable pub run_to_end : SimulationHarness → Outcome (Unit {0}) SimulationHarness
unfolding run_loop
run_to_end h = run_loop (suc (length h.log - h.cursor)) h
