-- ===== src/Decider/Progress.antt =====
-- store/src/decider.rs: a game in play is never stuck, and it is over after nine moves at most.
use tic_tac_tussle.Base.{
  ℕ, suc, ◌<◌, ◌≤◌, ◌≡◌, ◌≢◌, ◌⊎◌, inl, inr, zero, refl, some, List, ◌∷◌, ok, length, arith, ap,
  ◌∙◌, false, not,
}
use tic_tac_tussle.Base.Vec.{get_elem?}
use tic_tac_tussle.Base.Vec.Laws.{all_refuted, lt-get_elem?, count-set, count-pos}
use tic_tac_tussle.State.{
  PlayerId, Tile, empty, occupied, eq_tile, Board, lobby, in_game, ended, GameState,
}
use tic_tac_tussle.Commands.{place_tile}
use tic_tac_tussle.Events.{GameEvent, tile_placed}
use tic_tac_tussle.Board.{is_full}
use tic_tac_tussle.Decider.{decide, hydrate, endings, fold_events}
use tic_tac_tussle.Decider.Branches.{IsLegal, decide-place, placed, symbol_for}
use tic_tac_tussle.Decider.Result.{result_state, decide-fold_events}
use tic_tac_tussle.Decider.Invariant.{IsValid, vacant, result_state-IsValid}
use tic_tac_tussle.Decider.History.{IsHistory, hydrate-IsValid}
use tic_tac_tussle.Decider.Game.{Shows, moves, hydrate-Shows}

-- A board that is not full has an empty tile.
vacancy : (b : Board) → is_full b ≡ false → (at : ℕ) × (at < 9) × (get_elem? b at ≡ some empty)
unfolding is_full
vacancy b h =
    let (i, t, e, q) = all_refuted _ b h in (i, lt-get_elem? b i e, e ∙ ap some (blank t q))
  where
    blank : (t : Tile) → not (eq_tile t empty) ≡ false → t ≡ empty
    blank empty q = refl
    blank (occupied s) q = cc

-- In a valid game that is in play the player whose turn it is has a legal move, and `decide`
-- accepts it.
pub move_available :
    (s : GameState)
    → IsValid s
    → s.stage ≡ in_game
    → (at : ℕ) × IsLegal s s.active_player_id at
      × (decide s (place_tile s.active_player_id at)
          ≡ ok (
              tile_placed s.active_player_id at
              ∷ endings s.active_player_id (placed s s.active_player_id at)))
move_available s v h =
    let (at, range, e) = vacancy s.board (v.unfilled h) in
    let legal : IsLegal s s.active_player_id at = (h, refl, range, e) in
    (at, legal, ((decide-place s s.active_player_id at).0 _).1 (legal, refl))

-- The players choose their moves by `choose`, for as long as the game is in play.
pub data Plays (choose : GameState → ℕ) : GameState → GameState → Type 0 where
  over : {s : GameState} → s.stage ≢ in_game → Plays choose s s
  move :
      {s t u : GameState} {evs : List GameEvent}
      → s.stage ≡ in_game
      → decide s (place_tile s.active_player_id (choose s)) ≡ ok evs
      → fold_events s evs ≡ some t
      → Plays choose t u
      → Plays choose s u

-- `choose` picks one of the legal moves.
abbrev pub IsStrategy : (GameState → ℕ) → Type 0
IsStrategy choose =
    (s : GameState) → IsValid s → s.stage ≡ in_game → IsLegal s s.active_player_id (choose s)

-- A move fills a tile.
pub vacant-place :
    (s : GameState) (at : ℕ)
    → IsLegal s s.active_player_id at
    → suc (vacant (placed s s.active_player_id at)) ≡ vacant s.board
vacant-place s at legal = ground (
  arith,
  count-set (λ t. eq_tile t empty) s.board at (occupied (symbol_for s s.active_player_id)) legal.3,
)

pub stage_options :
    (s : GameState) (p : PlayerId) (at : ℕ)
    → s.stage ≢ lobby
    → (result_state s (place_tile p at)).stage ≢ lobby
stage_options s p at h = ground arith

pub stage_cases : (s : GameState) → s.stage ≢ lobby → (s.stage ≡ in_game) ⊎ (s.stage ≡ ended)
stage_cases s h = ground arith

module _ (choose : GameState → ℕ) (strategy : IsStrategy choose) where
  play_from :
      (n : ℕ) (s : GameState)
      → vacant s.board ≤ n
      → IsValid s
      → s.stage ≢ lobby
      → (u : GameState) × Plays choose s u × (u.stage ≡ ended) × IsValid u
  play_from zero s few v left = elim (stage_cases s left) [
    | inr e ↦ (s, over (ground arith), e, v)
    | inl h ↦ absurd (omega (arith, few, vacant-place s (choose s) (strategy s v h)))
  ]
  play_from (suc k) s few v left = elim (stage_cases s left) [
    | inr e ↦ (s, over (ground arith), e, v)
    | inl h ↦
        let legal = strategy s v h in
        let cmd = place_tile s.active_player_id (choose s) in
        let run = ((decide-place s s.active_player_id (choose s)).0 _).1 (legal, refl) in
        let (u, plays, done, valid) =
          play_from k (result_state s cmd) (omega (arith, few, vacant-place s (choose s) legal))
            (result_state-IsValid s cmd run v)
            (stage_options s s.active_player_id (choose s) left) in
        (u, move h run (decide-fold_events s cmd run) plays, done, valid)
  ]

  -- However the players choose among their legal moves, play from a valid state of a game that
  -- has begun reaches the end of the game, in a valid state.
  pub play_ends :
      (s : GameState)
      → IsValid s
      → s.stage ≢ lobby
      → (u : GameState) × Plays choose s u × (u.stage ≡ ended) × IsValid u
  play_ends s v left = play_from (vacant s.board) s (omega arith) v left

-- Every log of a game has at most nine moves, and fewer while the game is in play.
pub moves_bound :
    {l : List GameEvent}
    → IsHistory l
    → (s : GameState) × (hydrate l ≡ some s)
      × (length (moves l) ≤ 9)
      × (s.stage ≡ in_game → length (moves l) < 9)
moves_bound {l} h =
    let (s, e, v) = hydrate-IsValid h in
    let shows : Shows (moves l) s = hydrate-Shows h e in
    (
      s,
      e,
      omega (arith, shows.room),
      λ playing.
          let (at, range, q) = vacancy s.board (v.unfilled playing) in
          omega (arith, shows.room, count-pos (λ t. eq_tile t empty) s.board at q refl),
    )
