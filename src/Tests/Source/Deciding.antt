-- ===== src/Tests/Source/Deciding.antt =====
-- The tests of store/src/decider.rs.
use tic_tac_tussle.Base.{
  ℕ, ◌≡◌, refl, Bool, true, false, not, ◌||◌, List, [], ◌∷◌, ◌++◌, Outcome, ok, err, or_panic,
  get_elem?, length, ◌>>=◌, ◌>>◌, ◌==◌,
}
use tic_tac_tussle.Base.Vec
use tic_tac_tussle.State.{PlayerId, GameState, ended, in_game, eq_stage, default}
use tic_tac_tussle.Commands.{join_game, place_tile, leave_game}
use tic_tac_tussle.Events.{GameEvent, EndGameReason, game_ended}
use tic_tac_tussle.Errors.{TicTacTussleError, not_your_turn, tile_occupied}
use tic_tac_tussle.Board.{winning_symbol, is_full}
use tic_tac_tussle.Decider.{evolve, fold_events, hydrate, decide}
use tic_tac_tussle.Tests.Source.{Test, assert, unwrap, run_all}

abbrev pub pid : ℕ → PlayerId
pid n = n

abbrev pub started : Outcome (Unit {0}) (GameState × PlayerId × PlayerId)
started = do
  e1 ← unwrap (decide default (join_game (pid 1) "Alice"))
  s1 ← or_panic (hydrate e1)
  e2 ← unwrap (decide s1 (join_game (pid 2) "Bob"))
  s2 ← or_panic (hydrate (e1 ++ e2))
  ok (s2, s2.players.0, s2.players.1)

-- The loop of the two tests that play a game.
abbrev plays : GameState → List (PlayerId × ℕ) → Outcome (Unit {0}) GameState
plays s [] = ok s
plays s ((p, at) ∷ rest) = do
  evs ← unwrap (decide s (place_tile p at))
  next ← or_panic (fold_events s evs)
  plays next rest

-- The `matches!` of the tests.
abbrev is_not_your_turn : Outcome TicTacTussleError (List GameEvent) → Bool
is_not_your_turn (err (not_your_turn p)) = true
is_not_your_turn _ = false

abbrev is_occupied : ℕ → Outcome TicTacTussleError (List GameEvent) → Bool
is_occupied i (err (tile_occupied at)) = at == i
is_occupied i _ = false

abbrev is_left : PlayerId → GameEvent → Bool
is_left p (GameEvent.player_left q) = q == p
is_left p _ = false

abbrev is_end : GameEvent → Bool
is_end (game_ended reason) = true
is_end _ = false

abbrev is_end_by : PlayerId → GameEvent → Bool
is_end_by p (game_ended (EndGameReason.player_left q)) = q == p
is_end_by p _ = false

-- `iter().any`
abbrev any_event : (GameEvent → Bool) → List GameEvent → Bool
any_event p [] = false
any_event p (e ∷ l) = p e || any_event p l

abbrev two_joins_starts_game : Test
two_joins_starts_game = do t ← started; assert (eq_stage t.0.stage in_game)

abbrev x_goes_first : Test
x_goes_first = do t ← started; assert (t.0.active_player_id == t.1)

abbrev wrong_turn_rejected : Test
wrong_turn_rejected = do t ← started; assert (is_not_your_turn (decide t.0 (place_tile t.2 0)))

abbrev occupied_tile_rejected : Test
occupied_tile_rejected = do
  t ← started
  evs ← unwrap (decide t.0 (place_tile t.1 4))
  s2 ← or_panic (fold_events t.0 evs)
  assert (is_occupied 4 (decide s2 (place_tile t.2 4)))

abbrev win_ends_game : Test
win_ends_game = do
  t ← started
  s ← plays t.0 ((t.1, 0) ∷ (t.2, 3) ∷ (t.1, 1) ∷ (t.2, 4) ∷ (t.1, 2) ∷ [])
  assert (eq_stage s.stage ended)

abbrev draw_ends_game : Test
draw_ends_game = do
  t ← started
  s ← plays t.0 (
      (t.1, 0)
      ∷ (t.2, 1)
      ∷ (t.1, 2)
      ∷ (t.2, 3)
      ∷ (t.1, 5)
      ∷ (t.2, 4)
      ∷ (t.1, 7)
      ∷ (t.2, 6)
      ∷ (t.1, 8)
      ∷ [])
  assert (eq_stage s.stage ended)

abbrev player_leaves_lobby : Test
player_leaves_lobby = do
  events ← unwrap (decide default (join_game 1 "Alice"))
  joined ← or_panic (get_elem? events 0)
  state ← or_panic (evolve default joined)
  leave_events ← unwrap (decide state (leave_game 1))
  assert (length leave_events == 1)
  first ← or_panic (get_elem? leave_events 0)
  assert (is_left 1 first)
  assert (not (any_event is_end leave_events))

abbrev player_leaves_ingame_ends_game : Test
player_leaves_ingame_ends_game = do
  t ← started
  leave_events ← unwrap (decide t.0 (leave_game t.1))
  assert (length leave_events == 2)
  first ← or_panic (get_elem? leave_events 0)
  assert (is_left t.1 first)
  second ← or_panic (get_elem? leave_events 1)
  assert (is_end_by t.1 second)

-- They all pass.
deciding_passes :
    run_all (
      two_joins_starts_game ∷ x_goes_first ∷ wrong_turn_rejected ∷ occupied_tile_rejected
      ∷ win_ends_game ∷ draw_ends_game ∷ player_leaves_lobby ∷ player_leaves_ingame_ends_game ∷ [])
    ≡ ok tt
unfolding decide evolve fold_events hydrate default winning_symbol is_full Vec.replicate Vec.set
    Vec.all Vec.get_elem?
deciding_passes = refl
