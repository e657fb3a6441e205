-- ===== src/Client/Input.antt =====
-- client/src/main.rs: `handle_input`, and the cell that `render_hover` highlights.
use tic_tac_tussle.Base.{
  Option-cases, Bool-cases, inl, inr, ◌∙◌, ap, sym, ℕ, ◌<◌, ◌≡◌, ◌≢◌, ◌⊎◌, ◌↔◌, refl, Bool, not,
  ◌&&◌, true, false, Option, none, some, Outcome, ok, err, panic, ◌>>=◌, ◌>>◌, err_if, or_err,
  or_panic, ◌==◌, if◌then◌else◌, arith,
}
use tic_tac_tussle.Base.Vec.{get_elem?}
use tic_tac_tussle.State.{PlayerId, empty, eq_tile, in_game, eq_stage, GameState}
use tic_tac_tussle.Commands.{GameCommand, place_tile}
use tic_tac_tussle.Decider.Branches.{IsLegal, tile_cases}
use tic_tac_tussle.Base.Vec.Laws.{get_elem?-lt}
use tic_tac_tussle.Network.{Codec}
use tic_tac_tussle.Base.Int.{ℤ, pos, negsuc}
use tic_tac_tussle.Client.{Client, send}
use tic_tac_tussle.Client.Screen.{Float, Window, cell_at, cell_under}

module _ {F : Type 0} (float : Float F) where
  -- `handle_input` up to the message: the command to send, an early return, or the panic of a
  -- missing window.
  unfoldable pub clicked : Option (Window F) → Bool → Client → Outcome (Unit {0}) GameCommand
  unfolding cell_under
  clicked windows just_pressed c = do
    err_if (not (eq_stage c.state.stage in_game)) tt
    my_id ← or_err c.local_player_id tt
    err_if (not (c.state.active_player_id == my_id)) tt
    window ← or_panic windows
    cursor ← or_err window.cursor_position tt
    at ← or_err (cell_under float window cursor) tt
    err_if (not just_pressed) tt
    tile ← or_panic (get_elem? c.state.board at)
    err_if (not (eq_tile tile empty)) tt
    ok (place_tile my_id at)

  -- `handle_input`
  unfoldable pub handle_input :
      {E : Type 0} → Codec E GameCommand → Option (Window F) → Bool → Client → Option Client
  unfolding clicked
  handle_input commands windows just_pressed c = elim (clicked windows just_pressed c) [
    | ok cmd ↦ send commands cmd c
    | err e ↦ some c
    | panic ↦ none
  ]

  -- `is_my_turn` of `render_hover`
  abbrev pub is_my_turn : GameState → Option PlayerId → Bool
  is_my_turn s none = false
  is_my_turn s (some id) = (s.active_player_id == id) && eq_stage s.stage in_game

  -- The cell that `render_hover` makes visible; the others it makes invisible.
  unfoldable pub hovered : Option (Window F) → Client → Option (Option ℕ)
  unfolding cell_under
  hovered none c = none
  hovered (some window) c = some (
      if is_my_turn c.state c.local_player_id
      then elim window.cursor_position [ some p ↦ cell_under float window p | none ↦ none ]
      else none)

  cell_at_range : (row col : ℤ) (at : ℕ) → cell_at row col ≡ some at → at < 9
  unfolding cell_at
  cell_at_range (pos row) (pos col) at h = grind arith
  cell_at_range (pos row) (negsuc col) at h = cc
  cell_at_range (negsuc row) col at h = cc

  cell_under_range :
      (window : Window F) (p : F × F) (at : ℕ) → cell_under float window p ≡ some at → at < 9
  unfolding cell_under
  cell_under_range window (x, y) at h = search cell_at_range

  turn_cases :
      (s : GameState) (me : Option PlayerId)
      → ((id : PlayerId) × (me ≡ some id)
          × (s.stage ≡ in_game)
          × (s.active_player_id ≡ id)
          × (is_my_turn s me ≡ true))
        ⊎ (is_my_turn s me ≡ false)
  turn_cases s none = ground arith
  turn_cases s (some id) = ground arith

  -- What is needed for a click to send a move.
  abbrev pub Sends : Window F → Bool → Client → PlayerId → ℕ → Type 0
  Sends window just_pressed c my_id at =
      (c.local_player_id ≡ some my_id)
      × (hovered (some window) c ≡ some (some at))
      × (just_pressed ≡ true)
      × IsLegal c.state my_id at

  clicked-Sends :
      (window : Window F) (just_pressed : Bool) (c : Client) (my_id : PlayerId) (at : ℕ)
      → Sends window just_pressed c my_id at
      → clicked (some window) just_pressed c ≡ ok (place_tile my_id at)
  unfolding clicked hovered
  clicked-Sends window just_pressed c my_id at (l, h, p, legal) = grind arith

  -- Every run of the system sends a move or returns early.
  click_cases :
      (window : Window F) (just_pressed : Bool) (c : Client)
      → ((my_id : PlayerId) × (at : ℕ) × Sends window just_pressed c my_id at)
        ⊎ (clicked (some window) just_pressed c ≡ err tt)
  unfolding clicked hovered
  click_cases window just_pressed c = elim (turn_cases c.state c.local_player_id) [
    | inr no_turn ↦ inr (not_mine c.local_player_id refl no_turn)
    | inl (id, me, stage, active, turn) ↦ elim (Option-cases window.cursor_position) [
      | inl out ↦ inr (grind arith)
      | inr (p, inside) ↦ elim (Option-cases (cell_under float window p)) [
        | inl off ↦ inr (grind arith)
        | inr (at, found) ↦ elim (Bool-cases just_pressed) [
          | inr up ↦ inr (grind arith)
          | inl down ↦
              let range = cell_under_range window p at found in
              let (t, m) = get_elem?-lt c.state.board at range in
              elim (tile_cases t) [
                | inl e ↦
                    inl (id, at, (me, grind arith, down, (stage, active, range, m ∙ ap some e)))
                | inr (mark, e) ↦ inr (grind arith)
              ]
        ]
      ]
    ]
  ]
    where
      not_mine :
          (me : Option PlayerId)
          → c.local_player_id ≡ me
          → is_my_turn c.state c.local_player_id ≡ false
          → clicked (some window) just_pressed c ≡ err tt
      not_mine none l no_turn = grind arith
      not_mine (some id) l no_turn = grind arith

  -- A click sends a move exactly when the move is legal in the client's state and is at the cell
  -- that is highlighted; and where there is a window the system does not panic.
  pub clicked_lem :
      (window : Window F) (just_pressed : Bool) (c : Client)
      → ((cmd : GameCommand)
          → (clicked (some window) just_pressed c ≡ ok cmd) ↔ (
              (my_id : PlayerId) × (at : ℕ) × (cmd ≡ place_tile my_id at)
              × Sends window just_pressed c my_id at))
        × (clicked (some window) just_pressed c ≢ panic)
  clicked_lem window just_pressed c = elim (click_cases window just_pressed c) [
    | inr early ↦ (
      λ cmd. (
        λ h. absurd (cc),
        λ (id, at, e, sends).
            let run = clicked-Sends window just_pressed c id at sends in absurd (cc),
      ),
      λ h. cc,
    )
    | inl (id, at, sends) ↦
        let run = clicked-Sends window just_pressed c id at sends in
        (
          λ cmd. (
            λ h. (id, at, cc, sends),
            λ (id', at', e, sends').
                clicked-Sends window just_pressed c id' at' sends' ∙ ap ok (sym e),
          ),
          λ h. cc,
        )
  ]
