-- ===== src/Decider.antt =====
-- store/src/decider.rs: `GameDecider`. A panic of the source is `none`, or `panic` where errors
-- are returned as well.
pub mod Branches
pub mod Result
pub mod Invariant
pub mod Winner
pub mod Redelivery
pub mod Departure
pub mod History
pub mod Opening
pub mod Game
pub mod Progress
pub mod Placements
use tic_tac_tussle.Base.{
  ℕ, Bool, not, ◌||◌, Option, none, some, List, [], ◌∷◌, Outcome, ok, err, panic, ◌>>=◌, ◌>>◌,
  err_if, or_panic, is_some, ltb, ◌==◌, if◌then◌else◌,
}
use tic_tac_tussle.Base.Vec.{get_elem?, set?}
use tic_tac_tussle.State.{
  PlayerId, Symbol, empty, occupied, eq_tile, Stage, lobby, in_game, ended, eq_stage, Board,
  GameState, default,
}
use tic_tac_tussle.Commands.{GameCommand, join_game, place_tile, leave_game}
use tic_tac_tussle.Events.{
  EndGameReason, player_won, draw, GameEvent, player_joined, game_started, tile_placed, game_ended,
}
use tic_tac_tussle.Errors.{
  TicTacTussleError, wrong_stage, already_joined, tile_out_of_range, tile_occupied, not_your_turn,
}
use tic_tac_tussle.Board.{winning_symbol, is_full}

-- `GameDecider::evolve`. Only a tile index past the board panics.
unfoldable pub evolve : GameState → GameEvent → Option GameState
evolve s (player_joined p name) = some (
    if s.players.0 == 0
    then record s { players = (p, s.players.1) }
    else record s { players = (s.players.0, p) })
evolve s (game_started first) = some (record s { stage = in_game; active_player_id = first })
evolve s (tile_placed p at) =
    let symbol = if s.players.0 == p then Symbol.x else Symbol.o in
    let next = if s.players.0 == p then s.players.1 else s.players.0 in
    elim (set? s.board at (occupied symbol)) [
      | some b ↦ some (record s { board = b; active_player_id = next })
      | none ↦ none
    ]
evolve s (GameEvent.player_left p) = some s
evolve s (game_ended reason) = some (record s { stage = ended })

-- `iter().fold(state, evolve)`, which stops at a panic.
unfoldable pub fold_events : GameState → List GameEvent → Option GameState
fold_events s [] = some s
fold_events s (e ∷ es) = elim (evolve s e) [ some next ↦ fold_events next es | none ↦ none ]

-- `GameDecider::hydrate`
unfoldable pub hydrate : List GameEvent → Option GameState
unfolding fold_events default
hydrate es = fold_events default es

-- `GameDecider::require_stage`
abbrev pub require_stage : GameState → Stage → Outcome TicTacTussleError (Unit {0})
require_stage s expected = err_if (not (eq_stage s.stage expected)) (wrong_stage expected s.stage)

-- The events after the placed one: a win, a draw or nothing.
abbrev pub endings : PlayerId → Board → List GameEvent
endings p b =
    if is_some (winning_symbol b)
    then game_ended (player_won p) ∷ []
    else if is_full b
    then game_ended draw ∷ []
    else []

-- `GameDecider::decide`
unfoldable pub decide : GameState → GameCommand → Outcome TicTacTussleError (List GameEvent)
unfolding evolve
decide s (join_game p name) = do
  require_stage s lobby
  err_if (s.players.0 == p || s.players.1 == p) (already_joined p)
  next ← or_panic (evolve s (player_joined p name))
  ok (
      if not (next.players.1 == 0)
      then player_joined p name ∷ game_started next.players.0 ∷ []
      else player_joined p name ∷ [])
decide s (place_tile p at) = do
  require_stage s in_game
  err_if (not (s.active_player_id == p)) (not_your_turn p)
  err_if (ltb 8 at) (tile_out_of_range at)
  tile ← or_panic (get_elem? s.board at)
  err_if (not (eq_tile tile empty)) (tile_occupied at)
  next ← or_panic (evolve s (tile_placed p at))
  ok (tile_placed p at ∷ endings p next.board)
decide s (leave_game p) = ok (
    if eq_stage s.stage in_game
    then GameEvent.player_left p ∷ game_ended (EndGameReason.player_left p) ∷ []
    else GameEvent.player_left p ∷ [])
