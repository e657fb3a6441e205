-- ===== src/Tests/Screen.antt =====
-- The theorems on the client's window and display, at the window that `main` opens. Fractions stand
-- in for the floating point numbers: a whole number, or a quotient that is none.
use tic_tac_tussle.Base.{
  ℕ, map, List, [], ◌∷◌, ◌++◌, Memᴰ, ◌⊎◌, ok, ◌+◌, ◌*◌, ◌/◌, ◌%◌, ◌^◌, ◌<◌, ◌≡◌, ◌↔◌, refl, some,
  none, ◌==◌, if◌then◌else◌, arith,
}
use tic_tac_tussle.Base.Int.{ℤ, pos, negsuc, ◌+ℤ◌, ◌-ℤ◌, ◌*ℤ◌, floor_div, neg_part, pos_part}
use tic_tac_tussle.Base.Vec
use tic_tac_tussle.State.{PlayerId, Symbol, occupied, in_game, GameState}
use tic_tac_tussle.State.Pair
use tic_tac_tussle.State.Pair.{PlayerPair, symbol_of}
use tic_tac_tussle.Commands.{place_tile}
use tic_tac_tussle.Events.{GameEvent, tile_placed}
use tic_tac_tussle.Decider.{decide, hydrate, evolve}
use tic_tac_tussle.Board.{winning_symbol}
use tic_tac_tussle.Board.Wins.{winning_symbol_sound}
use tic_tac_tussle.Client.{Client, pair_of, joins as joins_of}
use tic_tac_tussle.Client.Input.{hovered}
use tic_tac_tussle.Client.Display.{
  Palette, Piece, Scene, Sprite, cells, grid_lines, setup, render_hover, render_pieces,
}
use tic_tac_tussle.Client.Highlight.{IsReplaced, spawned, IsLitAt, render_hover_lem}
use tic_tac_tussle.Client.Pieces.{IsPieceOf, render_pieces_lem}
use tic_tac_tussle.Client.Status.{
  Status, update_status, a_move, says_yours, says_theirs, says_won, says_lost, one_turn, win_shown,
}
use tic_tac_tussle.Tests.Data.{
  blank, cross, grid, before_win, before_win-IsValid, joins, first_move, first_move-IsHistory,
}
use tic_tac_tussle.Client.Screen.{Float, Window, cell_under, cell_pos}
use tic_tac_tussle.Client.Grid.{IsExact, InSquare, centre, cell_under_lem}
use tic_tac_tussle.Client.Bar.{
  Layout, IsUpper, px, percent, status_bar, resolution, status_bar_cell,
}

data Fraction : Type 0 where
  whole : ℤ → Fraction
  quotient : ℤ → ℕ → Fraction

abbrev on_wholes : (ℤ → ℤ → Fraction) → Fraction → Fraction → Fraction
on_wholes f (whole a) (whole b) = f a b
on_wholes f x y = whole (pos 0)

abbrev divide : ℤ → ℤ → Fraction
divide a (pos b) =
    if (pos_part a + neg_part a) % b == 0 then whole (floor_div a b) else quotient a b
divide a (negsuc b) = whole (pos 0)

abbrev floor : Fraction → ℤ
floor (whole a) = a
floor (quotient a b) = floor_div a b

abbrev float : Float Fraction
float = record {
  of = λ n. whole (pos n);
  decimal = λ n k. quotient (pos n) (10 ^ k);
  neg = λ x. on_wholes (λ a b. whole (a -ℤ b)) (whole (pos 0)) x;
  add = on_wholes λ a b. whole (a +ℤ b);
  sub = on_wholes λ a b. whole (a -ℤ b);
  mul = on_wholes λ a b. whole (a *ℤ b);
  div = on_wholes divide;
  floor_as_isize = floor;
}

divide-floor : (a : ℤ) (b : ℕ) → floor (divide a (pos b)) ≡ floor_div a b
divide-floor a b = ground arith

divide-half : (n : ℕ) → divide (pos (2 * n)) (pos 2) ≡ whole (pos n)
unfolding floor_div
divide-half n = ground arith

abbrev exact : IsExact float
exact = record {
  value = whole;
  of_value = λ n h. refl;
  add_value = λ a b h k l. refl;
  sub_value = λ a b h k l. refl;
  mul_value = λ n b h k l m. refl;
  half_value = λ n h. divide-half n;
  floor_value = λ a b h k l. divide-floor a b;
}

-- The cursor in the middle of the right column, in the lowest row.
abbrev window : Window Fraction
window = record {
  width = whole (pos 480);
  height = whole (pos 540);
  cursor_position = some (whole (pos 400), whole (pos 500));
}

cell_under_lem_example :
    ((cell_under float window (whole (pos 400), whole (pos 500)) ≡ some 8)
      ↔ InSquare (pos 400 -ℤ pos 240, pos 270 -ℤ pos 500) 8)
    × (8 < 9 → cell_pos float 8 ≡ (whole (centre 8).0, whole (centre 8).1))
cell_under_lem_example =
    cell_under_lem float exact 240 270 400 500 (omega arith) (omega arith) (omega arith)
      (omega arith) window refl refl 8

abbrev layout : Layout
layout = record {
  resolve = λ v side. elim v [ px n ↦ n | percent n ↦ n * side / 100 ];
  resolve_px = λ n side. refl;
  resolve_percent = λ n side. refl;
}

-- A pixel of the bar.
status_bar_cell_example :
    (IsUpper layout status_bar 400 500
      × (cell_under float window (whole (pos 400), whole (pos 500)) ≡ some (6 + 400 / 160)))
    ⊎ ((¬ IsUpper layout status_bar 400 500)
        × (cell_under float window (whole (pos 400), whole (pos 500)) ≡ none))
unfolding status_bar resolution
status_bar_cell_example =
    status_bar_cell float exact layout 400 500 (omega arith, omega arith, omega arith, omega arith)
      window refl refl

-- The tests of the source.
upper_left : cell_pos float 0 ≡ (whole (negsuc 159), whole (pos 160))
unfolding cell_pos ◌-ℤ◌ ◌*ℤ◌
upper_left = refl

middle : cell_pos float 4 ≡ (whole (pos 0), whole (pos 0))
unfolding cell_pos ◌-ℤ◌ ◌*ℤ◌
middle = refl

lower_right : cell_pos float 8 ≡ (whole (pos 160), whole (negsuc 159))
unfolding cell_pos ◌-ℤ◌ ◌*ℤ◌
lower_right = refl

-- Colours by name.
data Paint : Type 0 where
  rgb : ℕ → ℕ → ℕ → Paint
  no_paint : Paint
  alpha : Fraction → Paint → Paint

abbrev set_alpha : Fraction → Paint → Paint
set_alpha a (alpha b k) = alpha a k
set_alpha a (rgb r g b) = alpha a (rgb r g b)
set_alpha a no_paint = alpha a no_paint

abbrev palette : Palette Fraction Paint
palette = record {
  srgb_u8 = rgb;
  white = rgb 255 255 255;
  transparent = no_paint;
  set_alpha = set_alpha;
}

replaced : IsReplaced float palette
replaced a b (alpha c k) = refl
replaced a b (rgb r g c) = refl
replaced a b no_paint = refl

-- Alice's and Bob's clients, after the first move and just before the win.
abbrev pair : PlayerPair
pair = Pair.new 1 "Alice" 2 "Bob"

abbrev client_of : PlayerId → GameState → List GameEvent → Client
client_of p s l = record {
  local_player_id = some p;
  received_events = l;
  maybe_pair = some pair;
  state = s;
  written = l;
  outbox = [];
}

abbrev after_first : GameState
after_first = record {
  stage = in_game;
  board = grid blank blank blank blank cross blank blank blank blank;
  active_player_id = 2;
  players = (1, 2);
}

first_move-hydrate : hydrate first_move ≡ some after_first
unfolding hydrate evolve Vec.set Vec.replicate
first_move-hydrate = refl

-- The cursor is on the cell 8, and it is Bob's turn.
hovers : hovered float (some window) (client_of 2 after_first first_move) ≡ some (some 8)
unfolding hovered ◌+ℤ◌ ◌-ℤ◌ floor_div
hovers = refl

render_hover_lem_example :
    (next : Scene Fraction Paint) × (render_hover float palette
        (some window)
        (client_of 2 after_first first_move)
        (setup float palette)
      ≡ some next)
    × (next.grid_lines ≡ grid_lines float palette)
    × (map (λ e. e.0) next.hover_cells ≡ cells)
    × ((i : ℕ) (sprite : Sprite Fraction Paint)
        → Memᴰ (i, sprite) next.hover_cells
        → IsLitAt float palette (some 8) i sprite)
render_hover_lem_example =
    render_hover_lem float palette replaced (setup float palette) spawned (some window)
      (client_of 2 after_first first_move) (some 8) hovers

render_pieces_lem_example :
    ((drawn : Piece Fraction Paint)
      → Memᴰ drawn
          (render_pieces float palette (tile_placed 1 4 ∷ []) (client_of 2 after_first first_move))
      → (i : ℕ) × (t : Symbol) × (Vec.get_elem? after_first.board i ≡ some (occupied t))
        × IsPieceOf float palette (client_of 2 after_first first_move) drawn i t)
    × ((i : ℕ) (t : Symbol)
        → Vec.get_elem? after_first.board i ≡ some (occupied t)
        → ((p : PlayerId) × Memᴰ (tile_placed p i) joins)
          ⊎ ((drawn : Piece Fraction Paint) × Memᴰ drawn (
                render_pieces float palette
                  (tile_placed 1 4 ∷ [])
                  (client_of 2 after_first first_move))
              × IsPieceOf float palette (client_of 2 after_first first_move) drawn i t))
unfolding joins_of pair_of Pair.new
render_pieces_lem_example =
    render_pieces_lem float palette (client_of 2 after_first first_move) pair joins
      (tile_placed 1 4 ∷ []) joins (tile_placed 1 4 ∷ []) refl refl refl refl first_move-IsHistory
      first_move-hydrate

-- Both before the winning move, at Alice's turn.
abbrev waits : Status Paint
waits = record { text = "Waiting for opponent…"; color = rgb 255 255 255 }

one_turn_example :
    ((before_win.active_player_id ≡ before_win.players.0)
      × (update_status palette ([] ++ tile_placed 2 4 ∷ []) (client_of 1 before_win []) (some waits)
          ≡ some (says_yours palette))
      × (update_status palette ([] ++ tile_placed 2 4 ∷ []) (client_of 2 before_win []) (some waits)
          ≡ some (says_theirs palette "Alice")))
    ⊎ ((before_win.active_player_id ≡ before_win.players.1)
        × (update_status palette
              ([] ++ tile_placed 2 4 ∷ [])
              (client_of 1 before_win [])
              (some waits)
            ≡ some (says_theirs palette "Bob"))
        × (update_status palette
              ([] ++ tile_placed 2 4 ∷ [])
              (client_of 2 before_win [])
              (some waits)
            ≡ some (says_yours palette)))
unfolding Pair.new
one_turn_example =
    one_turn palette (client_of 1 before_win []) (client_of 2 before_win []) before_win [] []
      (tile_placed 2 4) (tile_placed 2 4) waits waits pair before_win-IsValid refl refl refl refl
      refl (refl, refl) refl refl a_move a_move

win_shown_example :
    (evs : List GameEvent) × (decide before_win (place_tile 1 2) ≡ ok evs)
    × (update_status palette ([] ++ evs) (client_of 1 before_win []) (some waits)
        ≡ some (says_won palette))
    × (((before_win.active_player_id ≡ before_win.players.0)
          × (update_status palette ([] ++ evs) (client_of 2 before_win []) (some waits)
              ≡ some (says_lost palette "Alice")))
        ⊎ ((before_win.active_player_id ≡ before_win.players.1)
            × (update_status palette ([] ++ evs) (client_of 2 before_win []) (some waits)
                ≡ some (says_lost palette "Bob"))))
unfolding Pair.new Vec.get_elem? Vec.set winning_symbol
win_shown_example =
    win_shown palette (client_of 1 before_win []) (client_of 2 before_win []) before_win 2 [] []
      waits waits pair before_win-IsValid refl (refl, refl) (refl, refl, omega arith, refl)
      (winning_symbol_sound _ Symbol.x refl) 2 (omega arith) refl refl
