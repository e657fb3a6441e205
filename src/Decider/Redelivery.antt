-- ===== src/Decider/Redelivery.antt =====
-- store/src/decider.rs: what a command does that arrives again after it has been accepted.
use tic_tac_tussle.Base.{◌≡◌, ◌⊎◌, List, [], ◌∷◌, ok, err, arith, String, ℕ, refl}
use tic_tac_tussle.State.{PlayerId, lobby, in_game, ended, GameState}
use tic_tac_tussle.Commands.{GameCommand, join_game, place_tile, leave_game}
use tic_tac_tussle.Events.{GameEvent}
use tic_tac_tussle.Errors.{wrong_stage, already_joined, not_your_turn}
use tic_tac_tussle.Decider.{decide}
use tic_tac_tussle.Decider.Branches.{CanJoin, IsLegal, decide-join, decide-place, decide-leave}
use tic_tac_tussle.Decider.Result.{result_state}
use tic_tac_tussle.Decider.Invariant.{IsValid}

-- How a second delivery of a command fares in the state after the first.
abbrev pub Repeats : GameState → GameCommand → Type 0
Repeats t (join_game p name) =
    (decide t (join_game p name) ≡ err (already_joined p))
    ⊎ (decide t (join_game p name) ≡ err (wrong_stage lobby in_game))
Repeats t (place_tile p at) =
    (decide t (place_tile p at) ≡ err (not_your_turn p))
    ⊎ (decide t (place_tile p at) ≡ err (wrong_stage in_game ended))
Repeats t (leave_game p) =
    (decide t (leave_game p) ≡ ok (GameEvent.player_left p ∷ []))
    × (result_state t (leave_game p) ≡ t)

repeat_join :
    (s : GameState) (p : PlayerId) (name : String)
    → IsValid s
    → CanJoin s p
    → Repeats (result_state s (join_game p name)) (join_game p name)
unfolding decide
repeat_join s p name v can = ground arith

repeat_place :
    (s : GameState) (p : PlayerId) (at : ℕ)
    → IsValid s
    → IsLegal s p at
    → Repeats (result_state s (place_tile p at)) (place_tile p at)
unfolding decide
repeat_place s p at v legal = ground arith

repeat_leave :
    (s : GameState) (p : PlayerId) → Repeats (result_state s (leave_game p)) (leave_game p)
unfolding decide
repeat_leave s p = ground arith

-- In a valid game a command that is delivered again right after it was accepted changes nothing:
-- a join and a move are refused, and a departure is logged once more with the state as it was.
pub decide_again :
    (s : GameState) (c : GameCommand) {evs : List GameEvent}
    → IsValid s
    → decide s c ≡ ok evs
    → Repeats (result_state s c) c
decide_again s (join_game p name) {evs} v h =
    repeat_join s p name v (((decide-join s p name).0 evs).0 h).0
decide_again s (place_tile p at) {evs} v h =
    repeat_place s p at v (((decide-place s p at).0 evs).0 h).0
decide_again s (leave_game p) v h = repeat_leave s p

-- Once a game has ended only departures are accepted, and they leave the state as it is.
pub ended_absorbs :
    (s : GameState) (c : GameCommand) {evs : List GameEvent}
    → s.stage ≡ ended
    → decide s c ≡ ok evs
    → ((p : PlayerId) × (c ≡ leave_game p) × (evs ≡ GameEvent.player_left p ∷ []))
      × (result_state s c ≡ s)
ended_absorbs s (join_game p name) {evs} e h =
    let can = (((decide-join s p name).0 evs).0 h).0 in ground arith
ended_absorbs s (place_tile p at) {evs} e h =
    let can = (((decide-place s p at).0 evs).0 h).0 in ground arith
ended_absorbs s (leave_game p) {evs} e h =
    ((p, refl, (ground (arith, decide-leave s p))), ground arith)
