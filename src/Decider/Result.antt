-- ===== src/Decider/Result.antt =====
-- store/src/decider.rs: the state that the events of an accepted command lead to.
use tic_tac_tussle.Base.{
  ℕ, String, ◌<◌, ◌≡◌, some, List, ◌∷◌, ok, ◌==◌, if◌then◌else◌, is_some, arith,
}
use tic_tac_tussle.State.{PlayerId, Stage, in_game, ended, eq_stage, GameState}
use tic_tac_tussle.Commands.{GameCommand, join_game, place_tile, leave_game}
use tic_tac_tussle.Events.{GameEvent, player_joined, tile_placed}
use tic_tac_tussle.Board.{winning_symbol, is_full}
use tic_tac_tussle.Decider.{evolve, fold_events, decide, endings}
use tic_tac_tussle.Decider.Branches.{
  placed, place_state, seats, starts, evolve-place, decide-place, decide-join, decide-leave,
  departure,
}

abbrev pub stage_after : GameState → PlayerId → ℕ → Stage
stage_after s p at =
    if is_some (winning_symbol (placed s p at))
    then ended
    else if is_full (placed s p at)
    then ended
    else s.stage

abbrev pub joined : GameState → PlayerId × PlayerId → GameState
joined s (first, second) =
    if second == 0
    then record s { players = (first, second) }
    else record s { players = (first, second); stage = in_game; active_player_id = first }

-- The state after an accepted command.
abbrev pub result_state : GameState → GameCommand → GameState
result_state s (join_game p name) = joined s (seats s p)
result_state s (place_tile p at) = record (place_state s p at) { stage = stage_after s p at }
result_state s (leave_game p) = record s {
  stage = if eq_stage s.stage in_game then ended else s.stage;
}

fold-endings :
    (s : GameState) (p : PlayerId) (at : ℕ)
    → fold_events (place_state s p at) (endings p (placed s p at))
      ≡ some (result_state s (place_tile p at))
unfolding fold_events evolve
fold-endings s p at = ground arith

fold-place :
    (s : GameState) (p : PlayerId) (at : ℕ)
    → at < 9
    → fold_events s (tile_placed p at ∷ endings p (placed s p at))
      ≡ some (result_state s (place_tile p at))
unfolding fold_events
fold-place s p at h = rw (evolve-place s p at h, fold_events) (fold-endings s p at)

fold-join :
    (s : GameState) (p : PlayerId) (name : String)
    → fold_events s (player_joined p name ∷ starts (seats s p))
      ≡ some (result_state s (join_game p name))
unfolding fold_events evolve
fold-join s p name = ground arith

fold-leave :
    (s : GameState) (p : PlayerId)
    → fold_events s (departure s p) ≡ some (result_state s (leave_game p))
unfolding fold_events evolve
fold-leave s p = ground arith

-- The events of an accepted command apply without a panic, and lead to the state that
-- `result_state` gives in closed form.
pub decide-fold_events :
    (s : GameState) (c : GameCommand) {evs : List GameEvent}
    → decide s c ≡ ok evs
    → fold_events s evs ≡ some (result_state s c)
decide-fold_events s (join_game p name) {evs} h =
    let (can, e) = ((decide-join s p name).0 evs).0 h in rw e (fold-join s p name)
decide-fold_events s (place_tile p at) {evs} h =
    let (legal, e) = ((decide-place s p at).0 evs).0 h in rw e (fold-place s p at legal.2)
decide-fold_events s (leave_game p) {evs} h =
    let e : evs ≡ departure s p = (cc (decide-leave s p)) in rw e (fold-leave s p)
