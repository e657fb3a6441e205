-- ===== src/Tests/Data.antt =====
-- A game of Alice (1, X) and Bob (2, O), at several points.
use tic_tac_tussle.Base.{List, [], ◌∷◌, ◌≡◌, refl, some, arith}
use tic_tac_tussle.Base.Vec.{nil, cons, replicate, count, get_elem?, set, all}
use tic_tac_tussle.State.{Symbol, Tile, empty, occupied, Board, lobby, in_game, GameState, default}
use tic_tac_tussle.Commands.{join_game, place_tile}
use tic_tac_tussle.Events.{GameEvent, player_joined, game_started, tile_placed}
use tic_tac_tussle.Board.{winning_symbol, is_full}
use tic_tac_tussle.Decider.{hydrate, decide, evolve}
use tic_tac_tussle.Decider.Invariant.{IsValid}
use tic_tac_tussle.Decider.History.{IsHistory, fresh, accepted}

abbrev pub blank : Tile
blank = empty

abbrev pub cross : Tile
cross = occupied Symbol.x

abbrev pub nought : Tile
nought = occupied Symbol.o

abbrev pub grid : Tile → Tile → Tile → Tile → Tile → Tile → Tile → Tile → Tile → Board
grid a b c d e f g h i =
    cons a (cons b (cons c (cons d (cons e (cons f (cons g (cons h (cons i nil))))))))

-- X may complete the top row.
abbrev pub before_win : GameState
before_win = record {
  stage = in_game;
  board = grid cross cross blank nought nought blank blank blank blank;
  active_player_id = 1;
  players = (1, 2);
}

pub before_win-IsValid : IsValid before_win
unfolding count winning_symbol get_elem? is_full all
before_win-IsValid = ground arith

-- Alice waits in the lobby.
abbrev pub waiting : GameState
waiting = record {
  stage = lobby;
  board = replicate 9 empty;
  active_player_id = 0;
  players = (1, 0);
}

pub waiting-IsValid : IsValid waiting
waiting-IsValid = ground arith

abbrev pub joins : List GameEvent
joins = player_joined 1 "Alice" ∷ player_joined 2 "Bob" ∷ game_started 1 ∷ []

abbrev pub first_move : List GameEvent
first_move = player_joined 1 "Alice" ∷ player_joined 2 "Bob" ∷ game_started 1 ∷ tile_placed 1 4 ∷ []

abbrev pub started : GameState
started = record {
  stage = in_game;
  board = replicate 9 empty;
  active_player_id = 1;
  players = (1, 2);
}

pub joins-hydrate : hydrate joins ≡ some started
unfolding hydrate evolve
joins-hydrate = refl

pub joins-IsHistory : IsHistory joins
unfolding hydrate decide evolve
joins-IsHistory =
    accepted {s = waiting} (join_game 2 "Bob")
      (accepted {s = default} (join_game 1 "Alice") fresh refl refl refl) refl refl refl

pub first_move-IsHistory : IsHistory first_move
unfolding decide get_elem? set replicate winning_symbol is_full all
first_move-IsHistory =
    accepted {s = started} (place_tile 1 4) joins-IsHistory joins-hydrate refl refl
