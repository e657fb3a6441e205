-- ===== src/Tests/Game.antt =====
-- The theorems on the board, the decider, the store and the simulation, at small games.
use tic_tac_tussle.Base.{
  String, List, [], ◌∷◌, ◌≡◌, ◌≢◌, ◌↔◌, ◌⊎◌, refl, some, arith, ok, err, panic, is_some, true,
}
use tic_tac_tussle.Base.Vec
use tic_tac_tussle.Base.Vec.{replicate}
use tic_tac_tussle.State.{in_game, Symbol, ended, lobby, GameState, Board}
use tic_tac_tussle.State.Pair
use tic_tac_tussle.State.Pair.{PlayerPair, opponent_lem, name_of-member}
use tic_tac_tussle.Commands.{join_game, place_tile, leave_game}
use tic_tac_tussle.Events.{GameEvent, player_joined, tile_placed, game_ended, player_won, draw}
use tic_tac_tussle.Errors.{TicTacTussleError, wrong_stage, already_joined}
use tic_tac_tussle.Board.{winning_symbol}
use tic_tac_tussle.Board.Wins.{Wins, winning_symbol_lem}
use tic_tac_tussle.Decider.{hydrate, decide, endings, fold_events}
use tic_tac_tussle.Decider.Branches.{
  placed, IsLegal, Refusal, symbol_for, CanJoin, seats, starts, decide-place, decide-join,
}
use tic_tac_tussle.Decider.Invariant.{IsValid}
use tic_tac_tussle.Decider.Winner.{IsFilled, NoLine, endings_lem}
use tic_tac_tussle.Decider.Departure.{leave_lobby_keeps_seat}
use tic_tac_tussle.Decider.History.{hydrate-IsValid}
use tic_tac_tussle.Decider.Game.{Shows, moves, hydrate-Shows}
use tic_tac_tussle.Tests.Data.{
  blank, cross, nought, grid, before_win, before_win-IsValid, waiting, waiting-IsValid, joins,
  first_move, started, joins-hydrate, joins-IsHistory, first_move-IsHistory,
}

abbrev top_row : Board
top_row = grid cross cross cross nought nought blank blank blank blank

winning_symbol_lem_example :
    ((winning_symbol top_row ≡ some Symbol.x) → Wins top_row Symbol.x)
    × (Wins top_row Symbol.x → is_some (winning_symbol top_row) ≡ true)
winning_symbol_lem_example = winning_symbol_lem top_row Symbol.x

-- X takes the last tile of the top row.
win-IsLegal : IsLegal before_win 1 2
unfolding Vec.get_elem?
win-IsLegal = (refl, refl, omega arith, refl)

endings_lem_example :
    ((endings 1 (placed before_win 1 2) ≡ game_ended (player_won 1) ∷ [])
      ↔ Wins (placed before_win 1 2) (symbol_for before_win 1))
    × ((mark : Symbol) → Wins (placed before_win 1 2) mark → mark ≡ symbol_for before_win 1)
    × ((endings 1 (placed before_win 1 2) ≡ game_ended draw ∷ [])
        ↔ (IsFilled (placed before_win 1 2) × NoLine (placed before_win 1 2)))
    × ((endings 1 (placed before_win 1 2) ≡ [])
        ↔ (¬ IsFilled (placed before_win 1 2) × NoLine (placed before_win 1 2)))
endings_lem_example = endings_lem before_win 1 2 before_win-IsValid win-IsLegal

decide-place_example :
    ((evs : List GameEvent)
      → (decide before_win (place_tile 1 2) ≡ ok evs)
        ↔ (IsLegal before_win 1 2 × (evs ≡ tile_placed 1 2 ∷ endings 1 (placed before_win 1 2))))
    × ((e : TicTacTussleError)
        → (decide before_win (place_tile 1 2) ≡ err e) ↔ Refusal before_win 1 2 e)
    × (decide before_win (place_tile 1 2) ≢ panic)
decide-place_example = decide-place before_win 1 2

-- The decision on the winning move.
win_decided :
    decide before_win (place_tile 1 2) ≡ ok (tile_placed 1 2 ∷ game_ended (player_won 1) ∷ [])
unfolding decide Vec.get_elem? Vec.set winning_symbol
win_decided = refl

decide-join_example :
    let name : String = "Bob" in
    ((evs : List GameEvent)
      → (decide waiting (join_game 2 name) ≡ ok evs)
        ↔ (CanJoin waiting 2 × (evs ≡ player_joined 2 name ∷ starts (seats waiting 2))))
    × ((waiting.stage ≢ lobby)
        ↔ (decide waiting (join_game 2 name) ≡ err (wrong_stage lobby lobby)))
    × (((waiting.stage ≡ lobby) × ((waiting.players.0 ≡ 2) ⊎ (waiting.players.1 ≡ 2)))
        ↔ (decide waiting (join_game 2 name) ≡ err (already_joined 2)))
    × (decide waiting (join_game 2 name) ≢ panic)
decide-join_example = decide-join waiting 2 "Bob"

abbrev over : GameState
over = record before_win { stage = ended }

leave_lobby_keeps_seat_example :
    (left : List GameEvent) × (t : GameState) × (joined : List GameEvent) × (u : GameState)
    × (decide waiting (leave_game 1) ≡ ok left)
    × (fold_events waiting left ≡ some t)
    × (decide t (join_game 1 "Alice") ≡ err (already_joined 1))
    × (decide t (join_game 2 "Bob") ≡ ok joined)
    × (fold_events t joined ≡ some u)
    × (u.stage ≡ in_game)
    × (u.players ≡ (1, 2))
    × (u.active_player_id ≡ 1)
leave_lobby_keeps_seat_example =
    leave_lobby_keeps_seat waiting 1 2 "Alice" "Bob" waiting-IsValid refl refl (omega arith)
      (omega arith) (omega arith)

hydrate-IsValid_example : (s : GameState) × (hydrate first_move ≡ some s) × IsValid s
hydrate-IsValid_example = hydrate-IsValid first_move-IsHistory

hydrate-Shows_example : Shows (moves joins) started
hydrate-Shows_example = hydrate-Shows joins-IsHistory joins-hydrate

abbrev pair : PlayerPair
pair = Pair.new 1 "Alice" 2 "Bob"
