-- ===== src/Tests/Session.antt =====
-- The theorems on the store, the simulation, the service and the server's loop, in one session.
use tic_tac_tussle.Base.{
  Bytes, ℕ, String, List, [], ◌∷◌, ◌++◌, ◌≡◌, ◌≢◌, ◌↔◌, refl, ◌+◌, some, none, arith, ok, err,
  panic, Option, Outcome, map,
}
use tic_tac_tussle.Base.Vec
use tic_tac_tussle.State.{GameState, default}
use tic_tac_tussle.Commands.{Stamp, CommandEnvelope, GameCommand, join_game, place_tile}
use tic_tac_tussle.Events.{GameEvent, GameEventEnvelope, player_joined, game_started, tile_placed}
use tic_tac_tussle.Errors.{TicTacTussleError, wrong_game}
use tic_tac_tussle.Board.{winning_symbol, is_full}
use tic_tac_tussle.Decider.{hydrate, decide, fold_events}
use tic_tac_tussle.Store.{EventStore, append_batch, events}
use tic_tac_tussle.Store.Log.{IsSequenced, From, IsLog, append_batch_lem}
use tic_tac_tussle.Simulation.{SimulationHarness, branch_with_command, run_to_end}
use tic_tac_tussle.Simulation.Replay.{IsSynced, at_end, run_to_end_lem}
use tic_tac_tussle.Simulation.Branch.{branch_lem}
use tic_tac_tussle.Ports.{BrokerMessage, command, event_batch, Anyhow}
use tic_tac_tussle.Ports.Doubles.{Captured, capture, capturing_publisher, noop_broadcaster}
use tic_tac_tussle.Service.{GameService, handle}
use tic_tac_tussle.Service.Handle.{IsGood}
use tic_tac_tussle.Service.Guarantees.{handle_refusals, handle_accepted, handle_returns}
use tic_tac_tussle.Server.{BrokerCommand, Server, broker_command}
use tic_tac_tussle.Server.Acks.{broker_rejections, broker_accepted}
use tic_tac_tussle.Tests.Data.{joins, started, joins-hydrate, joins-IsHistory}

abbrev pub stamps : ℕ → Stamp
stamps n = record { id = n + 100; occurred_at = n }

abbrev pub envelope : ℕ → GameEvent → GameEventEnvelope
envelope n e = record {
  id = n + 100;
  command_id = none;
  sequence = n;
  game_id = 5;
  occurred_at = n;
  event = e;
}

-- The store of game 5 after both have joined.
abbrev pub joined_store : EventStore
joined_store = record {
  game_id = 5;
  log =
      envelope 0 (player_joined 1 "Alice")
      ∷ envelope 1 (player_joined 2 "Bob")
      ∷ envelope 2 (game_started 1)
      ∷ [];
}

pub joined_store-IsLog : IsLog joined_store
joined_store-IsLog = omega arith

pub joined_store-IsGood : IsGood joined_store
unfolding events
joined_store-IsGood = record { numbered = joined_store-IsLog; history = joins-IsHistory }

append_batch_lem_example :
    let (t, envs) = append_batch stamps joined_store (tile_placed 1 4 ∷ []) (some 9) in
    (t.log ≡ joined_store.log ++ envs)
    × (t.game_id ≡ 5)
    × (map (λ e. e.event) envs ≡ tile_placed 1 4 ∷ [])
    × IsSequenced 5 3 envs
    × From (some 9) envs
append_batch_lem_example = append_batch_lem stamps joined_store (tile_placed 1 4 ∷ []) (some 9)

-- A harness at the start of the log.
abbrev harness : SimulationHarness
harness = record { log = joins; cursor = 0; state = default }

harness-IsSynced : IsSynced harness
unfolding hydrate fold_events
harness-IsSynced = record { within = omega arith; replayed = refl }

abbrev after_one : SimulationHarness
after_one = record { log = joins; cursor = 1; state = record default { players = (1, 0) } }

run_to_end_lem_example : run_to_end harness ≡ at_end harness (hydrate joins)
run_to_end_lem_example = run_to_end_lem harness harness-IsSynced

branch_lem_example :
    let c = join_game 1 "Alice" in
    ((evs : List GameEvent) (t : GameState)
      → (branch_with_command harness c ≡ ok (evs, t))
        ↔ ((decide default c ≡ ok evs) × (hydrate evs ≡ some t)))
    × ((e : TicTacTussleError)
        → (branch_with_command harness c ≡ err e) ↔ (decide default c ≡ err e))
    × (branch_with_command harness c ≢ panic)
branch_lem_example = branch_lem harness (join_game 1 "Alice") harness-IsSynced

-- An error type with the three ways to make an error.
pub data Failure : Type 0 where
  typed : TicTacTussleError → Failure
  text : String → Failure
  within : String → Failure → Failure

abbrev pub downcast : Failure → Option TicTacTussleError
downcast (typed e) = some e
downcast (text t) = none
downcast (within t e) = downcast e

abbrev pub failures : Anyhow Failure
failures = record {
  from_error = typed;
  from_text = text;
  context = within;
  downcast_ref = downcast;
  to_string = λ e. "a rule was broken";
  downcast_ref-from_error = λ e. refl;
  downcast_ref-from_text = λ t. refl;
  downcast_ref-context = λ t e. refl;
}

abbrev Game : Type 0
Game = GameService Captured (Unit {0})

abbrev game : Game
game = record {
  store = joined_store;
  publisher = record { published = []; commands = [] };
  broadcaster = tt;
}

abbrev pub order : ℕ → GameCommand → CommandEnvelope
order id c = record { id = id; game_id = id; occurred_at = 0; command = c }

abbrev run : CommandEnvelope → Outcome Failure (Unit {0}) × Game
run cmd = handle failures capturing_publisher noop_broadcaster stamps cmd game

handle_refusals_example :
    ((7 ≢ joined_store.game_id)
      → let (r, after) = run (order 7 (place_tile 1 4)) in
        (after ≡ game) × ((x : Failure) × (r ≡ err x) × (downcast x ≡ some (wrong_game 7 5))))
    × ((s : GameState) (e : TicTacTussleError)
        → ◌≡◌ {A = ℕ} 7 5
        → hydrate (events joined_store) ≡ some s
        → decide s (place_tile 1 4) ≡ err e
        → let (r, after) = run (order 7 (place_tile 1 4)) in
          (after ≡ game) × ((x : Failure) × (r ≡ err x) × (downcast x ≡ none)))
handle_refusals_example =
    handle_refusals failures capturing_publisher noop_broadcaster stamps (order 7 (place_tile 1 4))
      game

pub move_decided : decide started (place_tile 1 4) ≡ ok (tile_placed 1 4 ∷ [])
unfolding decide Vec.get_elem? Vec.set Vec.replicate winning_symbol is_full Vec.all
move_decided = refl

pub joined_hydrates : hydrate (events joined_store) ≡ some started
unfolding events
joined_hydrates = joins-hydrate

handle_accepted_example :
    let after = (run (order 5 (place_tile 1 4))).1 in
    (events after.store ≡ events joined_store ++ tile_placed 1 4 ∷ [])
    × ((new : List GameEventEnvelope) × (after.store.log ≡ joined_store.log ++ new)
        × From (some 5) new
        × (after.publisher ≡ (capture {E = Failure} (event_batch new) game.publisher).1))
handle_accepted_example =
    handle_accepted failures capturing_publisher noop_broadcaster stamps (order 5 (place_tile 1 4))
      game started (tile_placed 1 4 ∷ []) refl joined_hydrates move_decided

pub captures : (msg : BrokerMessage) (p : Captured) → (capture {E = Failure} msg p).0 ≢ panic
unfolding capture
captures (command c) p = λ h. cc
captures (event_batch l) p = λ h. cc

handle_returns_example : (run (order 5 (place_tile 2 4))).0 ≢ panic
handle_returns_example =
    handle_returns failures capturing_publisher noop_broadcaster stamps (order 5 (place_tile 2 4))
      game joined_store-IsGood captures (λ e n h. cc)

abbrev server : Server Captured (Unit {0})
server = record { service = game; acked = [] }

abbrev pub from_broker : CommandEnvelope → BrokerCommand
from_broker cmd = record { command_envelope = cmd; ack = 3 }

abbrev consume : CommandEnvelope → Outcome Failure (Unit {0}) × Server Captured (Unit {0})
consume cmd =
    broker_command failures capturing_publisher noop_broadcaster stamps (from_broker cmd) server

broker_rejections_example :
    ((5 ≢ joined_store.game_id)
      → consume (order 5 (place_tile 2 4)) ≡ (ok tt, record server { acked = 3 ∷ [] }))
    × ((state : GameState) (e : TicTacTussleError)
        → ◌≡◌ {A = ℕ} 5 5
        → hydrate (events joined_store) ≡ some state
        → decide state (place_tile 2 4) ≡ err e
        → consume (order 5 (place_tile 2 4)) ≡ (ok tt, server))
broker_rejections_example =
    broker_rejections failures capturing_publisher noop_broadcaster stamps
      (from_broker (order 5 (place_tile 2 4))) server

broker_accepted_example :
    let after = (consume (order 5 (place_tile 1 4))).1 in
    let r = (run (order 5 (place_tile 1 4))).0 in
    (events after.service.store ≡ events joined_store ++ tile_placed 1 4 ∷ [])
    × ((r ≡ ok tt) → after.acked ≡ 3 ∷ [])
    × ((r ≢ ok tt) → after.acked ≡ [])
broker_accepted_example =
    broker_accepted failures capturing_publisher noop_broadcaster stamps
      (from_broker (order 5 (place_tile 1 4))) server started (tile_placed 1 4 ∷ [])
      (λ e n x h. absurd (cc)) refl joined_hydrates move_decided

abbrev pub decode_byte : Bytes → Option GameCommand
decode_byte (at ∷ []) = some (place_tile 1 at)
decode_byte _ = none
