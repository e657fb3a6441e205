-- ===== src/Client/Screen.antt =====
-- client/src/main.rs: the geometry of the window: the cell under the cursor, and where a cell is
-- drawn. The floating point numbers are a parameter, with the operations that the code uses.
use tic_tac_tussle.Base.{ℕ, ◌+◌, ◌*◌, ◌/◌, ◌%◌, ◌&&◌, Option, none, some, ltb, if◌then◌else◌}
use tic_tac_tussle.Base.Int.{ℤ, pos}

-- `f32`: the cast of a number or the literal of a whole number, the literal `n / 10 ^ k` of a
-- decimal fraction, arithmetic, and the cast of the floor to `isize`.
pub record Float (F : Type 0) : Type 0 where
  pub of : ℕ → F
  pub decimal : ℕ → ℕ → F
  pub neg : F → F
  pub add : F → F → F
  pub sub : F → F → F
  pub mul : F → F → F
  pub div : F → F → F
  pub floor_as_isize : F → ℤ

-- Size and cursor of the primary window.
pub record Window (F : Type 0) : Type 0 where
  pub width : F
  pub height : F
  pub cursor_position : Option (F × F)

abbrev pub cell : ℕ
cell = 160

abbrev pub board : ℕ
board = cell * 3

-- `(0..3).contains(&i)`, for both, and the index.
unfoldable pub cell_at : ℤ → ℤ → Option ℕ
cell_at (pos row) (pos col) = if ltb col 3 && ltb row 3 then some (row * 3 + col) else none
cell_at _ _ = none

module _ {F : Type 0} (float : Float F) where
  -- The cell that a point of the window lies in.
  unfoldable pub cell_under : Window F → F × F → Option ℕ
  unfolding cell_at
  cell_under window (x, y) =
      let wx = float.sub x (float.div window.width (float.of 2)) in
      let wy = float.sub (float.div window.height (float.of 2)) y in
      let half = float.div (float.of board) (float.of 2) in
      let col = float.floor_as_isize (float.div (float.add wx half) (float.of cell)) in
      let row = float.floor_as_isize (float.div (float.sub half wy) (float.of cell)) in
      cell_at row col

  -- The middle of a cell, from the middle of the window.
  unfoldable pub cell_pos : ℕ → F × F
  cell_pos idx =
      let col = float.of (idx % 3) in
      let row = float.of (idx / 3) in
      let x = float.mul (float.of cell) (float.sub col (float.of 1)) in
      let y = float.mul (float.of cell) (float.sub (float.of 1) row) in (x, y)
