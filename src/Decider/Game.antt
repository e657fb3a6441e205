-- ===== src/Decider/Game.antt =====
-- store/src/decider.rs refines the game on paper: two players who alternate, X first, each on a
-- tile that is still empty.
mod Moves
unfoldable pub use Moves.*
use tic_tac_tussle.Base.{
  ℕ, ◌+◌, ◌<◌, ◌≡◌, ◌≢◌, some, List, [], ◌∷◌, ◌++◌, append-nil, ok, length, length-append, ◌==◌,
  if◌then◌else◌, arith, refl, ap, subst, sym, String,
}
use tic_tac_tussle.Base.Vec.{get_elem?, replicate, count}
use tic_tac_tussle.Base.Vec.Laws.{
  get_elem?-replicate, get_elem?-set_self, get_elem?-set_ne, count-set,
}
use tic_tac_tussle.State.{
  PlayerId, Symbol, Tile, empty, occupied, eq_tile, lobby, GameState, default,
}
use tic_tac_tussle.Commands.{GameCommand, join_game, place_tile, leave_game}
use tic_tac_tussle.Events.{GameEvent, player_joined, game_started, tile_placed, game_ended}
use tic_tac_tussle.Decider.{hydrate, decide, endings, fold_events}
use tic_tac_tussle.Decider.Branches.{
  IsLegal, CanJoin, placed, symbol_for, starts, seats, departure, decide-join, decide-place,
  decide-leave,
}
use tic_tac_tussle.Decider.Result.{result_state}
use tic_tac_tussle.Decider.Invariant.{IsValid, vacant}
use tic_tac_tussle.Decider.History.{IsHistory, fresh, accepted, hydrate-append, hydrate-IsValid}

-- The state shows the game that consists of the moves `m`.
pub record Shows (m : List ℕ) (s : GameState) : Type 0 where
  pub tiles : (i : ℕ) → i < 9 → get_elem? s.board i ≡ some (drawn Symbol.x m i)
  pub to_move : s.stage ≢ lobby → s.active_player_id ≡ player_of s (turn Symbol.x m)
  pub none_yet : s.stage ≡ lobby → m ≡ []
  pub lawful : IsLawful m
  pub room : vacant s.board + length m ≡ 9

default-Shows : Shows [] default
unfolding default drawn replicate count
default-Shows = record {
  tiles = λ i h. get_elem?-replicate 9 i empty h;
  to_move = λ h. absurd (h refl);
  none_yet = λ h. refl;
  lawful = tt;
  room = omega arith;
}

module _ (m : List ℕ) (s : GameState) (v : IsValid s) (w : Shows m s) where
  join-Shows :
      (p : PlayerId) (name : String) → CanJoin s p → Shows m (result_state s (join_game p name))
  unfolding turn
  join-Shows p name can = record {
    tiles = λ i h. ground (arith, w.tiles i h);
    to_move = λ h. ground arith;
    none_yet = λ h. w.none_yet can.0;
    lawful = w.lawful;
    room = ground (arith, w.room);
  }

  leave-Shows : (p : PlayerId) → Shows m (result_state s (leave_game p))
  leave-Shows p = record {
    tiles = w.tiles;
    to_move = λ h. ground arith;
    none_yet = λ h. w.none_yet (ground arith);
    lawful = w.lawful;
    room = w.room;
  }

  module _ (p : PlayerId) (at : ℕ) (legal : IsLegal s p at) where
    was_empty : drawn Symbol.x m at ≡ empty
    was_empty = ground (arith, w.tiles at legal.2)

    -- The symbol that is drawn is the one whose turn it is.
    symbol-turn : symbol_for s p ≡ turn Symbol.x m
    symbol-turn = ground arith

    place-tiles :
        (i : ℕ) → i < 9 → get_elem? (placed s p at) i ≡ some (drawn Symbol.x (m ++ at ∷ []) i)
    place-tiles i h = ground (
      arith,
      was_empty,
      symbol-turn,
      w.tiles i h,
      drawn-append Symbol.x m at i,
      get_elem?-set_self s.board at (occupied (symbol_for s p)),
      get_elem?-set_ne s.board at i (occupied (symbol_for s p)),
    )

    place-room : vacant (placed s p at) + length (m ++ at ∷ []) ≡ 9
    place-room = ground (
      arith,
      w.room,
      length-append m (at ∷ []),
      count-set (λ t. eq_tile t empty) s.board at (occupied (symbol_for s p)) legal.3,
    )

    place-Shows : Shows (m ++ at ∷ []) (result_state s (place_tile p at))
    place-Shows = record {
      tiles = place-tiles;
      to_move = λ h. ground (arith, turn-append Symbol.x m at);
      none_yet = λ h. ground arith;
      lawful = IsLawful-append m at w.lawful (drawn-NotIn Symbol.x m at was_empty) legal.2;
      room = place-room;
    }

pub moves-endings :
    (s : GameState) (p : PlayerId) (at : ℕ)
    → moves (tile_placed p at ∷ endings p (placed s p at)) ≡ at ∷ []
unfolding moves
moves-endings s p at = ground arith

pub moves-join :
    (s : GameState) (p : PlayerId) (name : String)
    → moves (player_joined p name ∷ starts (seats s p)) ≡ []
unfolding moves
moves-join s p name = ground arith

pub moves-departure : (s : GameState) (p : PlayerId) → moves (departure s p) ≡ []
unfolding moves
moves-departure s p = ground arith

-- An accepted command keeps the state in step with the moves that its events add.
decide-Shows :
    (m : List ℕ) (s : GameState) (c : GameCommand) {new : List GameEvent}
    → IsValid s
    → Shows m s
    → decide s c ≡ ok new
    → Shows (m ++ moves new) (result_state s c)
decide-Shows m s (join_game p name) {new} v w d =
    let (can, e) = ((decide-join s p name).0 new).0 d in
    rw (e, moves-join s p name, append-nil) (join-Shows m s v w p name can)
decide-Shows m s (place_tile p at) {new} v w d =
    let (legal, e) = ((decide-place s p at).0 new).0 d in
    rw (e, moves-endings s p at) (place-Shows m s v w p at legal)
decide-Shows m s (leave_game p) {new} v w d =
    let e : new ≡ departure s p = cc (decide-leave s p) in
    rw (e, moves-departure s p, append-nil) (leave-Shows m s v w p)

-- The hydrated state of every log of a game is the position on paper: tile `i` carries what the
-- alternation of X and O put there, the player to move is the one whose turn it is, the moves are
-- on different tiles of the board, and the vacant tiles are the nine less the moves.
pub hydrate-Shows :
    {l : List GameEvent} {s : GameState} → IsHistory l → hydrate l ≡ some s → Shows (moves l) s
unfolding hydrate moves fold_events
hydrate-Shows {s = s} fresh e = let same : default ≡ s = cc in subst (Shows []) same default-Shows
hydrate-Shows {s = s'} (accepted {l = l} {new = new} {s = s} c h f d q) e =
    let (t, g, v) = hydrate-IsValid h in
    let valid : IsValid s = let same : t ≡ s = cc in subst IsValid same v in
    let run = hydrate-append l c f d in
    let same : result_state s c ≡ s' = cc in
    rw (q, moves-append)
      (subst (Shows (moves l ++ moves new)) same
        (decide-Shows (moves l) s c valid (hydrate-Shows h f) d))
