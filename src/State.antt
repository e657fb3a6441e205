-- ===== src/State.antt =====
-- store/src/state.rs: identifiers, tiles, stages, the pair of players and the write model.
-- A `u64` and a `Uuid` (a 128-bit value) are only compared and copied, so they are natural numbers.
pub mod Pair
use tic_tac_tussle.Base.{ℕ, String, Bool, true, false, ◌==◌}
use tic_tac_tussle.Base.Vec.{Vec, replicate}

abbrev pub Uuid : Type 0
Uuid = ℕ

abbrev pub PlayerId : Type 0
PlayerId = ℕ

abbrev pub GameId : Type 0
GameId = Uuid

pub data Symbol : Type 0 where
  x o : Symbol

pub Symbol-discrete : Discrete Symbol
Symbol-discrete = hlevel

pub data Tile : Type 0 where
  empty : Tile
  occupied : Symbol → Tile

pub data Stage : Type 0 where
  lobby in_game ended : Stage

-- The derived `==` of the three enums.
abbrev pub eq_symbol : Symbol → Symbol → Bool
eq_symbol Symbol.x Symbol.x = true
eq_symbol Symbol.o Symbol.o = true
eq_symbol _ _ = false

abbrev pub eq_tile : Tile → Tile → Bool
eq_tile empty empty = true
eq_tile (occupied s) (occupied t) = eq_symbol s t
eq_tile _ _ = false

abbrev pub eq_stage : Stage → Stage → Bool
eq_stage lobby lobby = true
eq_stage in_game in_game = true
eq_stage ended ended = true
eq_stage _ _ = false

abbrev pub Board : Type 0
Board = Vec Tile 9

-- `players` is `[PlayerId; 2]`; both indices in the source are constants.
pub record GameState : Type 0 where
  pub stage : Stage
  pub board : Board
  pub active_player_id : PlayerId
  pub players : PlayerId × PlayerId

-- `GameState::default()`
unfoldable pub default : GameState
default = record {
  stage = lobby;
  board = replicate 9 empty;
  active_player_id = 0;
  players = (0, 0);
}
