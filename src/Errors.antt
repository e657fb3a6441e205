-- ===== src/Errors.antt =====
-- store/src/errors.rs
use tic_tac_tussle.Base.{ℕ}
use tic_tac_tussle.State.{PlayerId, GameId, Stage}

pub data TicTacTussleError : Type 0 where
  -- the game that the command names, and the game of the session
  wrong_game : GameId → GameId → TicTacTussleError
  -- the stage that the action needs, and the current one
  wrong_stage : Stage → Stage → TicTacTussleError
  unknown_player : PlayerId → TicTacTussleError
  already_joined : PlayerId → TicTacTussleError
  tile_out_of_range : ℕ → TicTacTussleError
  tile_occupied : ℕ → TicTacTussleError
  not_your_turn : PlayerId → TicTacTussleError
