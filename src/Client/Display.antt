-- ===== src/Client/Display.antt =====
-- client/src/main.rs: what is drawn: the entities of `setup`, `render_pieces` and `render_hover`.
-- Bevy's colours are a parameter.
use tic_tac_tussle.Base.{
  ℕ, ◌==◌, Bool, false, Option, some, none, String, List, [], ◌∷◌, ◌++◌, map, if◌then◌else◌,
}
use tic_tac_tussle.State.{PlayerId, Symbol}
use tic_tac_tussle.State.Pair.{symbol_of}
use tic_tac_tussle.Events.{GameEvent, tile_placed}
use tic_tac_tussle.Client.{Client}
use tic_tac_tussle.Client.Screen.{Float, Window, cell, board, cell_pos}
use tic_tac_tussle.Client.Input.{hovered}

-- Bevy's `Color`
pub record Palette (F K : Type 0) : Type 0 where
  pub srgb_u8 : ℕ → ℕ → ℕ → K
  pub white : K
  pub transparent : K
  pub set_alpha : F → K → K

-- A coloured rectangle: its colour, its size, and the place of its middle.
pub record Sprite (F K : Type 0) : Type 0 where
  pub color : K
  pub custom_size : F × F
  pub translation : F × F × F

-- A piece, with its letter.
pub record Piece (F K : Type 0) : Type 0 where
  pub sprite : Sprite F K
  pub text : String
  pub font_size : F
  pub text_color : K
  pub text_translation : F × F × F

-- The entities that `setup` spawns, with the index of each hover cell.
pub record Scene (F K : Type 0) : Type 0 where
  pub grid_lines : List (Sprite F K)
  pub hover_cells : List (ℕ × Sprite F K)

-- `local == Some(player_id)`
abbrev pub is_me : Option PlayerId → PlayerId → Bool
is_me none p = false
is_me (some id) p = id == p

-- The letter of a piece.
unfoldable pub symbol_text : Option Symbol → String
symbol_text (some Symbol.x) = "X"
symbol_text (some Symbol.o) = "O"
symbol_text none = "?"

-- `0..9`
abbrev pub cells : List ℕ
cells = 0 ∷ 1 ∷ 2 ∷ 3 ∷ 4 ∷ 5 ∷ 6 ∷ 7 ∷ 8 ∷ []

module _ {F K : Type 0} (float : Float F) (palette : Palette F K) where
  unfoldable pub piece_color : Option Symbol → PlayerId → Option PlayerId → K
  piece_color none p local_id = palette.white
  piece_color (some Symbol.x) p local_id =
      if is_me local_id p then palette.srgb_u8 70 180 230 else palette.srgb_u8 230 100 70
  piece_color (some Symbol.o) p local_id =
      if is_me local_id p then palette.srgb_u8 70 230 150 else palette.srgb_u8 230 180 70

  -- The piece that is spawned for a `TilePlaced`.
  unfoldable pub piece : Client → PlayerId → ℕ → Piece F K
  unfolding cell_pos symbol_of symbol_text piece_color
  piece c p at =
      let symbol : Option Symbol = elim c.maybe_pair [
        | some pair ↦ some (symbol_of pair p)
        | none ↦ none
      ] in
      let (x, y) = cell_pos float at in
      let side = float.mul (float.of cell) (float.decimal 55 2) in
      record {
        sprite = record {
          color = piece_color symbol p c.local_player_id;
          custom_size = (side, side);
          translation = (x, y, float.of 1);
        };
        text = symbol_text symbol;
        font_size = float.mul (float.of cell) (float.decimal 4 1);
        text_color = palette.white;
        text_translation = (float.of 0, float.of 0, float.decimal 1 1);
      }

  -- `render_pieces`, over the events it has not read yet: the pieces it spawns.
  unfoldable pub render_pieces : List GameEvent → Client → List (Piece F K)
  unfolding piece
  render_pieces [] c = []
  render_pieces (tile_placed p at ∷ events) c = piece c p at ∷ render_pieces events c
  render_pieces (_ ∷ events) c = render_pieces events c

  -- The grid lines of `setup`.
  unfoldable pub grid_lines : List (Sprite F K)
  grid_lines =
      let offsets =
        float.div (float.neg (float.of cell)) (float.of 2)
        ∷ float.div (float.of cell) (float.of 2)
        ∷ [] in
      let color = palette.srgb_u8 80 80 80 in
      map
        (λ x. record {
          color = color;
          custom_size = (float.of 2, float.of board);
          translation = (x, float.of 0, float.of 0);
        })
        offsets
      ++ map
          (λ y. record {
            color = color;
            custom_size = (float.of board, float.of 2);
            translation = (float.of 0, y, float.of 0);
          })
          offsets

  -- The hover cell of an index.
  unfoldable pub hover_cell : ℕ → Sprite F K
  unfolding cell_pos
  hover_cell idx =
      let (x, y) = cell_pos float idx in
      let side = float.sub (float.of cell) (float.of 4) in
      record {
        color = palette.transparent;
        custom_size = (side, side);
        translation = (x, y, float.decimal 5 1);
      }

  -- The scene that `setup` spawns, but for the status bar.
  unfoldable pub setup : Scene F K
  unfolding grid_lines hover_cell
  setup = record { grid_lines = grid_lines; hover_cells = map (λ idx. (idx, hover_cell idx)) cells }

  -- The loop of `render_hover` over the hover cells.
  abbrev pub highlight : Option ℕ → ℕ × Sprite F K → ℕ × Sprite F K
  highlight hovered_cell (idx, sprite) =
      let shown : Bool = elim hovered_cell [ some at ↦ at == idx | none ↦ false ] in
      let alpha = if shown then float.decimal 2 1 else float.of 0 in
      (idx, record sprite { color = palette.set_alpha alpha sprite.color })

  -- `render_hover`; `none` is the panic of a missing window.
  unfoldable pub render_hover : Option (Window F) → Client → Scene F K → Option (Scene F K)
  unfolding hovered
  render_hover windows c scene = elim (hovered float windows c) [
    | none ↦ none
    | some at ↦ some (record scene { hover_cells = map (highlight at) scene.hover_cells })
  ]
