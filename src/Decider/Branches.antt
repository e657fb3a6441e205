-- ===== src/Decider/Branches.antt =====
-- store/src/decider.rs: when `decide` accepts a command, with which events, and which error it
-- gives otherwise.
use tic_tac_tussle.Base.{
  ℕ, ◌<◌, ◌≤◌, ◌≡◌, ◌≢◌, ◌↔◌, ◌⊎◌, inl, inr, some, List, [], ◌∷◌, ok, err, panic, ◌==◌,
  if◌then◌else◌, arith, ap, sym, subst, ◌∙◌, refl, dec_lt, ℕ_discrete, String,
}
use tic_tac_tussle.Base.Vec.{get_elem?, set}
use tic_tac_tussle.Base.Vec.Laws.{get_elem?-lt}
use tic_tac_tussle.State.{
  PlayerId, Symbol, Tile, empty, occupied, lobby, in_game, eq_stage, Board, GameState,
}
use tic_tac_tussle.Commands.{GameCommand, join_game, place_tile, leave_game}
use tic_tac_tussle.Events.{
  GameEvent, EndGameReason, player_joined, game_started, tile_placed, game_ended,
}
use tic_tac_tussle.Errors.{
  TicTacTussleError, wrong_stage, unknown_player, already_joined, tile_out_of_range, tile_occupied,
  not_your_turn,
}
use tic_tac_tussle.Decider.{evolve, decide, endings}

-- The symbol that `evolve` draws for a player.
abbrev pub symbol_for : GameState → PlayerId → Symbol
symbol_for s p = if s.players.0 == p then Symbol.x else Symbol.o

-- The board once a player has placed a tile.
abbrev pub placed : GameState → PlayerId → ℕ → Board
placed s p at = set s.board at (occupied (symbol_for s p))

-- The state after the placement.
abbrev pub place_state : GameState → PlayerId → ℕ → GameState
place_state s p at = record s {
  board = placed s p at;
  active_player_id = if s.players.0 == p then s.players.1 else s.players.0;
}

pub evolve-place :
    (s : GameState) (p : PlayerId) (at : ℕ)
    → at < 9
    → evolve s (tile_placed p at) ≡ some (place_state s p at)
unfolding evolve
evolve-place s p at h = ground arith

-- What the rules ask of a move.
abbrev pub IsLegal : GameState → PlayerId → ℕ → Type 0
IsLegal s p at =
    (s.stage ≡ in_game) × (s.active_player_id ≡ p) × (at < 9) × (get_elem? s.board at ≡ some empty)

-- Why a move is refused, in the order of the checks.
pub data Refusal (s : GameState) (p : PlayerId) (at : ℕ) : TicTacTussleError → Type 0 where
  not_in_game : s.stage ≢ in_game → Refusal s p at (wrong_stage in_game s.stage)
  not_active : s.stage ≡ in_game → s.active_player_id ≢ p → Refusal s p at (not_your_turn p)
  off_board :
      s.stage ≡ in_game → s.active_player_id ≡ p → 9 ≤ at → Refusal s p at (tile_out_of_range at)
  taken :
      {t : Symbol}
      → s.stage ≡ in_game
      → s.active_player_id ≡ p
      → at < 9
      → get_elem? s.board at ≡ some (occupied t)
      → Refusal s p at (tile_occupied at)

decide-place_legal :
    (s : GameState) (p : PlayerId) (at : ℕ)
    → IsLegal s p at
    → decide s (place_tile p at) ≡ ok (tile_placed p at ∷ endings p (placed s p at))
unfolding decide
decide-place_legal s p at h = ground arith

decide-place_refused :
    (s : GameState) (p : PlayerId) (at : ℕ) {e : TicTacTussleError}
    → Refusal s p at e
    → decide s (place_tile p at) ≡ err e
unfolding decide
decide-place_refused s p at (not_in_game h) = ground arith
decide-place_refused s p at (not_active h k) = ground arith
decide-place_refused s p at (off_board h k l) = ground arith
decide-place_refused s p at (taken h k l m) = ground arith

pub tile_cases : (t : Tile) → (t ≡ empty) ⊎ ((s : Symbol) × (t ≡ occupied s))
tile_cases empty = inl refl
tile_cases (occupied s) = inr (s, refl)

stage_cases : (s : GameState) → (s.stage ≡ in_game) ⊎ (s.stage ≢ in_game)
stage_cases s = ground arith

-- Every move is legal or refused for one reason.
pub place_cases :
    (s : GameState) (p : PlayerId) (at : ℕ)
    → IsLegal s p at ⊎ ((e : TicTacTussleError) × Refusal s p at e)
place_cases s p at = elim (stage_cases s) [
  | inr h ↦ inr (_, not_in_game h)
  | inl h ↦ elim (ℕ_discrete s.active_player_id p) [
    | no k ↦ inr (_, not_active h k)
    | yes k ↦ elim (dec_lt at 9) [
      | no l ↦ inr (_, off_board h k (omega arith))
      | yes l ↦
          let (t, m) = get_elem?-lt s.board at l in
          elim (tile_cases t) [
            | inl e ↦ inl (h, k, l, m ∙ ap some e)
            | inr (mark, e) ↦ inr (_, taken h k l (m ∙ ap some e))
          ]
    ]
  ]
]

-- A move is accepted exactly when it is legal, and then gives the placed tile and what follows
-- from the new board; it is refused with an error exactly when that error's case holds; and it
-- never panics.
pub decide-place :
    (s : GameState) (p : PlayerId) (at : ℕ)
    → ((evs : List GameEvent)
        → (decide s (place_tile p at) ≡ ok evs)
          ↔ (IsLegal s p at × (evs ≡ tile_placed p at ∷ endings p (placed s p at))))
      × ((e : TicTacTussleError) → (decide s (place_tile p at) ≡ err e) ↔ Refusal s p at e)
      × (decide s (place_tile p at) ≢ panic)
decide-place s p at = elim (place_cases s p at) [
  | inl l ↦
      let run = decide-place_legal s p at l in
      (
        λ evs. (λ h. (l, cc), λ h. run ∙ ap ok (sym h.1)),
        λ e. (λ h. absurd (cc), λ r. absurd (clash l r)),
        λ h. cc,
      )
  | inr (e, r) ↦
      let run = decide-place_refused s p at r in
      (
        λ evs. (λ h. absurd (cc), λ h. absurd (clash h.0 r)),
        λ e'. (λ h. subst (Refusal s p at) (cc) r, decide-place_refused s p at),
        λ h. cc,
      )
]
  where
    clash : {e : TicTacTussleError} → IsLegal s p at → Refusal s p at e → ⊥
    clash l r = let a = decide-place_legal s p at l in let b = decide-place_refused s p at r in cc

-- A player may take a seat: the game is in the lobby, and the player has none yet.
abbrev pub CanJoin : GameState → PlayerId → Type 0
CanJoin s p = (s.stage ≡ lobby) × (s.players.0 ≢ p) × (s.players.1 ≢ p)

-- The seats after a player has taken the first free one; 0 marks a free seat.
abbrev pub seats : GameState → PlayerId → PlayerId × PlayerId
seats s p = if s.players.0 == 0 then (p, s.players.1) else (s.players.0, p)

-- The start of the game, once both seats are taken.
abbrev pub starts : PlayerId × PlayerId → List GameEvent
starts (first, second) = if second == 0 then [] else game_started first ∷ []

-- Joining is accepted exactly while the game is in the lobby and for an id that stands in neither
-- seat, where a free seat has the id 0; it then starts the game exactly when the second seat is
-- taken by it. Outside the lobby it is refused with the stage. In the lobby it is refused as
-- already joined exactly for an id that stands in a seat, which the id 0 does while a seat is free,
-- although nobody has joined under it. It never panics.
pub decide-join :
    (s : GameState) (p : PlayerId) (name : String)
    → ((evs : List GameEvent)
        → (decide s (join_game p name) ≡ ok evs)
          ↔ (CanJoin s p × (evs ≡ player_joined p name ∷ starts (seats s p))))
      × ((s.stage ≢ lobby) ↔ (decide s (join_game p name) ≡ err (wrong_stage lobby s.stage)))
      × (((s.stage ≡ lobby) × ((s.players.0 ≡ p) ⊎ (s.players.1 ≡ p)))
          ↔ (decide s (join_game p name) ≡ err (already_joined p)))
      × (decide s (join_game p name) ≢ panic)
unfolding decide
decide-join s p name =
    (λ evs. (λ h. ground arith, λ h. ground arith), ground arith, ground arith, ground arith)

-- The events of a departure.
abbrev pub departure : GameState → PlayerId → List GameEvent
departure s p =
    if eq_stage s.stage in_game
    then GameEvent.player_left p ∷ game_ended (EndGameReason.player_left p) ∷ []
    else GameEvent.player_left p ∷ []

-- Leaving is accepted in every state and from anybody, also from who never joined.
pub decide-leave : (s : GameState) (p : PlayerId) → decide s (leave_game p) ≡ ok (departure s p)
unfolding decide
decide-leave s p = refl

-- `decide` never panics.
pub decide_total : (s : GameState) (c : GameCommand) → decide s c ≢ panic
decide_total s (join_game p name) = (decide-join s p name).3
decide_total s (place_tile p at) = (decide-place s p at).2
decide_total s (leave_game p) = λ h. let l = decide-leave s p in cc

-- The error that an absent player would get is never given: not by a join, which needs the player
-- to be absent, nor by a move or a departure of somebody who has no seat.
pub decide-ne-unknown_player :
    (s : GameState) (c : GameCommand) (p : PlayerId) → decide s c ≢ err (unknown_player p)
unfolding decide
decide-ne-unknown_player s (join_game q name) p h = ground arith
decide-ne-unknown_player s (place_tile q at) p h =
    other_error (((decide-place s q at).1 (unknown_player p)).0 h) refl
  where
    other_error : {e : TicTacTussleError} → Refusal s q at e → e ≢ unknown_player p
    other_error (not_in_game a) = λ k. cc
    other_error (not_active a b) = λ k. cc
    other_error (off_board a b d) = λ k. cc
    other_error (taken a b d e) = λ k. cc
decide-ne-unknown_player s (leave_game q) p h = cc
