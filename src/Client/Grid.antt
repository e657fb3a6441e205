-- ===== src/Client/Grid.antt =====
-- client/src/main.rs: a cell answers to exactly the points of the square in which it is drawn.
use tic_tac_tussle.Base.{ℕ, ◌+◌, ◌*◌, ◌/◌, ◌%◌, ◌^◌, ◌<◌, ◌≡◌, ◌↔◌, refl, some, arith, ap, ◌∙◌, sym}
use tic_tac_tussle.Base.Int.{
  ℤ, pos, negsuc, ◌+ℤ◌, ◌-ℤ◌, ◌*ℤ◌, ◌≤ℤ◌, ◌<ℤ◌, floor_div, magnitude, int_laws, size_laws,
}
use tic_tac_tussle.Client.Screen.{Float, Window, cell, cell_at, cell_under, cell_pos}

-- An integer that an `f32` represents, as are all those below it.
abbrev pub Small : ℤ → Type 0
Small a = magnitude a < 2 ^ 24

-- What IEEE 754 says of the numbers that are integers of at most 24 bits: arithmetic whose result is
-- such an integer is exact, and the rounding of a quotient of two of them does not reach the next
-- integer.
pub record IsExact {F : Type 0} (float : Float F) : Type 0 where
  pub value : ℤ → F
  pub of_value : (n : ℕ) → n < 2 ^ 24 → float.of n ≡ value (pos n)
  pub add_value :
      (a b : ℤ)
      → Small a
      → Small b
      → Small (a +ℤ b)
      → float.add (value a) (value b) ≡ value (a +ℤ b)
  pub sub_value :
      (a b : ℤ)
      → Small a
      → Small b
      → Small (a -ℤ b)
      → float.sub (value a) (value b) ≡ value (a -ℤ b)
  pub mul_value :
      (n : ℕ) (b : ℤ)
      → 0 < n
      → n < 2 ^ 24
      → Small b
      → Small (pos n *ℤ b)
      → float.mul (value (pos n)) (value b) ≡ value (pos n *ℤ b)
  pub half_value :
      (n : ℕ) → n < 2 ^ 23 → float.div (value (pos (2 * n))) (value (pos 2)) ≡ value (pos n)
  pub floor_value :
      (a : ℤ) (b : ℕ)
      → Small a
      → 0 < b
      → b < 2 ^ 24
      → float.floor_as_isize (float.div (value a) (value (pos b))) ≡ floor_div a b

-- The middle of a cell: columns go right and rows go down from the upper left.
abbrev pub centre : ℕ → ℤ × ℤ
centre at = (pos (cell * (at % 3)) -ℤ pos cell, pos cell -ℤ pos (cell * (at / 3)))

-- A point lies in the square of a cell, with its left and upper edge.
abbrev pub InSquare : ℤ × ℤ → ℕ → Type 0
InSquare (x, y) at =
    (at < 9)
    × ((centre at).0 -ℤ pos 80 ≤ℤ x)
    × (x <ℤ (centre at).0 +ℤ pos 80)
    × ((centre at).1 -ℤ pos 80 <ℤ y)
    × (y ≤ℤ (centre at).1 +ℤ pos 80)

cell_at_lem :
    (row col : ℤ) (at : ℕ)
    → (cell_at (floor_div row cell) (floor_div col cell) ≡ some at) ↔ (
        (at < 9)
        × (pos (cell * (at % 3)) ≤ℤ col)
        × (col <ℤ pos (cell * (at % 3) + cell))
        × (pos (cell * (at / 3)) ≤ℤ row)
        × (row <ℤ pos (cell * (at / 3) + cell)))
unfolding cell_at floor_div
cell_at_lem (pos row) (pos col) at = ground arith
cell_at_lem (pos row) (negsuc col) at = ground arith
cell_at_lem (negsuc row) (pos col) at = ground arith
cell_at_lem (negsuc row) (negsuc col) at = ground arith

product : (a b : ℕ) → pos cell *ℤ (pos a -ℤ pos b) ≡ pos (cell * a) -ℤ pos (cell * b)
unfolding ◌*ℤ◌ ◌-ℤ◌
product a b = ground arith

-- The conditions of `cell_at_lem` are those of the square.
to_square :
    (w h x y at : ℕ)
    → ((at < 9)
        × (pos (cell * (at % 3)) ≤ℤ pos x -ℤ pos w +ℤ pos 240)
        × (pos x -ℤ pos w +ℤ pos 240 <ℤ pos (cell * (at % 3) + cell))
        × (pos (cell * (at / 3)) ≤ℤ pos 240 -ℤ (pos h -ℤ pos y))
        × (pos 240 -ℤ (pos h -ℤ pos y) <ℤ pos (cell * (at / 3) + cell)))
      ↔ InSquare (pos x -ℤ pos w, pos h -ℤ pos y) at
to_square w h x y at = omega int_laws

module _ {F : Type 0} (float : Float F) (exact : IsExact float) where
  -- A coordinate of `cell_pos`.
  scaled :
      (a b : ℕ)
      → a < 3
      → b < 3
      → float.mul (float.of cell) (float.sub (float.of a) (float.of b))
        ≡ exact.value (pos (cell * a) -ℤ pos (cell * b))
  scaled a b ha hb =
      rw
        (
          exact.of_value a (omega arith),
          exact.of_value b (omega arith),
          exact.of_value cell (omega arith),
          exact.sub_value (pos a) (pos b) (omega arith) (omega arith) (omega size_laws),
          exact.mul_value cell (pos a -ℤ pos b) (omega arith) (omega arith) (omega size_laws)
              (rw (product a b) (omega size_laws)),
        )
        (ap exact.value (product a b))

  -- `cell_pos` is the middle of the cell.
  cell_pos_value :
      (at : ℕ) → at < 9 → cell_pos float at ≡ (exact.value (centre at).0, exact.value (centre at).1)
  unfolding cell_pos
  cell_pos_value at h =
      rw
        (
          scaled (at % 3) 1 (omega arith) (omega arith),
          scaled 1 (at / 3) (omega arith) (omega arith),
        )
        refl

  -- The cell under an integral point of a window with even sides.
  cell_under_value :
      (w h x y : ℕ)
      → w < 2 ^ 20
      → h < 2 ^ 20
      → x < 2 ^ 20
      → y < 2 ^ 20
      → (window : Window F) → window.width ≡ exact.value (pos (2 * w))
      → window.height ≡ exact.value (pos (2 * h))
      → cell_under float window (exact.value (pos x), exact.value (pos y))
        ≡ cell_at
            (floor_div (pos 240 -ℤ (pos h -ℤ pos y)) cell)
            (floor_div (pos x -ℤ pos w +ℤ pos 240) cell)
  unfolding cell_under
  cell_under_value w h x y bw bh bx by window ew eh = rw (
    ew,
    eh,
    exact.of_value 2 (omega arith),
    exact.of_value 480 (omega arith),
    exact.of_value cell (omega arith),
    exact.half_value w (omega arith),
    exact.half_value h (omega arith),
    exact.half_value 240 (omega arith),
    exact.sub_value (pos x) (pos w) (omega size_laws) (omega size_laws) (omega size_laws),
    exact.sub_value (pos h) (pos y) (omega size_laws) (omega size_laws) (omega size_laws),
    exact.add_value (pos x -ℤ pos w) (pos 240) (omega size_laws) (omega size_laws)
        (omega size_laws),
    exact.sub_value (pos 240) (pos h -ℤ pos y) (omega size_laws) (omega size_laws)
        (omega size_laws),
    exact.floor_value (pos x -ℤ pos w +ℤ pos 240) cell (omega size_laws) (omega arith)
        (omega arith),
    exact.floor_value (pos 240 -ℤ (pos h -ℤ pos y)) cell (omega size_laws) (omega arith)
        (omega arith),
  )

  -- Where the window has even sides and the cursor is at whole pixels, the cell under the cursor is
  -- the one around whose `cell_pos` the cursor lies, at most half a cell away on either axis, each
  -- square with its left and upper edge.
  pub cell_under_lem :
      (w h x y : ℕ)
      → w < 2 ^ 20
      → h < 2 ^ 20
      → x < 2 ^ 20
      → y < 2 ^ 20
      → (window : Window F) → window.width ≡ exact.value (pos (2 * w))
      → window.height ≡ exact.value (pos (2 * h))
      → (at : ℕ)
      → ((cell_under float window (exact.value (pos x), exact.value (pos y)) ≡ some at)
          ↔ InSquare (pos x -ℤ pos w, pos h -ℤ pos y) at)
        × (at < 9 → cell_pos float at ≡ (exact.value (centre at).0, exact.value (centre at).1))
  cell_under_lem w h x y bw bh bx by window ew eh at =
      let run = cell_under_value w h x y bw bh bx by window ew eh in
      let there = cell_at_lem (pos 240 -ℤ (pos h -ℤ pos y)) (pos x -ℤ pos w +ℤ pos 240) at in
      let square = to_square w h x y at in
      (
        (λ e. square.0 (there.0 (sym run ∙ e)), λ inside. run ∙ there.1 (square.1 inside)),
        cell_pos_value at,
      )
