-- ===== src/Decider/Departure.antt =====
-- store/src/decider.rs: what a departure does, in a game and in the lobby.
use tic_tac_tussle.Base.{◌≡◌, ◌≢◌, refl, some, List, ◌∷◌, [], ok, err, String, arith}
use tic_tac_tussle.State.{PlayerId, lobby, in_game, GameState}
use tic_tac_tussle.Commands.{join_game, leave_game}
use tic_tac_tussle.Events.{GameEvent, player_joined, game_started}
use tic_tac_tussle.Errors.{already_joined}
use tic_tac_tussle.Decider.{evolve, fold_events, decide}
use tic_tac_tussle.Decider.Invariant.{IsValid}

-- A player who has the first seat and leaves the lobby of a valid game keeps the seat: after the
-- events of the departure have been applied, the player cannot join again, and the next one to join
-- starts the game: its events lead to a game in play with the two of them in the seats, in which it
-- is the turn of the one who has left.
pub leave_lobby_keeps_seat :
    (s : GameState) (p q : PlayerId) (p_name q_name : String)
    → IsValid s
    → s.stage ≡ lobby
    → s.players.0 ≡ p
    → p ≢ 0
    → q ≢ 0
    → q ≢ p
    → (left : List GameEvent) × (t : GameState) × (joined : List GameEvent) × (u : GameState)
      × (decide s (leave_game p) ≡ ok left)
      × (fold_events s left ≡ some t)
      × (decide t (join_game p p_name) ≡ err (already_joined p))
      × (decide t (join_game q q_name) ≡ ok joined)
      × (fold_events t joined ≡ some u)
      × (u.stage ≡ in_game)
      × (u.players ≡ (p, q))
      × (u.active_player_id ≡ p)
unfolding decide fold_events evolve
leave_lobby_keeps_seat s p q p_name q_name v h a b c d =
    let free : s.players.1 ≡ 0 = v.lobby_open h in
    (
      GameEvent.player_left p ∷ [],
      s,
      player_joined q q_name ∷ game_started p ∷ [],
      record s { stage = in_game; players = (p, q); active_player_id = p },
      ground arith,
      ground arith,
      ground arith,
      ground arith,
      ground arith,
      refl,
      refl,
      refl,
    )

-- The id 0 marks a free seat, so in a valid game no player has it: joining under it is refused in
-- the lobby as a second join, although nobody has joined under it.
pub zero_cannot_join :
    (s : GameState) (name : String)
    → IsValid s
    → s.stage ≡ lobby
    → decide s (join_game 0 name) ≡ err (already_joined 0)
unfolding decide
zero_cannot_join s name v h = ground arith
