-- ===== src/Client/Bar.antt =====
-- client/src/main.rs: where the status bar lies. Bevy's layout of its node is a parameter.
use tic_tac_tussle.Base.{
  ℕ, ◌+◌, ◌*◌, ◌/◌, ◌<◌, ◌≤◌, ◌≡◌, ◌⊎◌, inl, inr, some, none, Option-cases, dec_lt, arith,
}
use tic_tac_tussle.Base.Int.{pos, int_laws}
use tic_tac_tussle.Client.Screen.{Float, Window, board, cell_under}
use tic_tac_tussle.Client.Grid.{IsExact, cell_under_lem}

-- `Val`
pub data Val : Type 0 where
  px : ℕ → Val
  percent : ℕ → Val

-- A `Node` that is positioned absolutely.
pub record Node : Type 0 where
  pub bottom : Val
  pub left : Val
  pub width : Val
  pub height : Val

-- The node of the status bar that `setup` spawns.
unfoldable pub status_bar : Node
status_bar = record { bottom = px 0; left = px 0; width = percent 100; height = px 60 }

-- The size of the window that `main` opens.
unfoldable pub resolution : ℕ × ℕ
resolution = (board, board + 60)

-- The pixels that a length takes of a side of the window: a number of pixels is taken as it is, and
-- a percentage is one of the side.
pub record Layout : Type 0 where
  pub resolve : Val → ℕ → ℕ
  pub resolve_px : (n side : ℕ) → resolve (px n) side ≡ n
  pub resolve_percent : (n side : ℕ) → resolve (percent n) side ≡ n * side / 100

module _ (layout : Layout) (node : Node) (x y : ℕ) where
  abbrev right_of : Val → ℕ
  right_of v = layout.resolve v resolution.0

  abbrev above : Val → ℕ
  above v = layout.resolve v resolution.1

  -- A pixel of the window, counted from the upper left, is in the rectangle of the node.
  abbrev pub Covers : Type 0
  Covers =
      (right_of node.left ≤ x)
      × (x < right_of node.left + right_of node.width)
      × (resolution.1 ≤ y + above node.bottom + above node.height)
      × (y + above node.bottom < resolution.1)

  -- It is in the upper half of the node.
  abbrev pub IsUpper : Type 0
  IsUpper = 2 * (y + above node.bottom) + above node.height < 2 * resolution.1

module _ {F : Type 0} (float : Float F) (exact : IsExact float) (layout : Layout) where
  -- In the window that the client opens, where the arithmetic of small integers is exact: a pixel
  -- that the status bar covers is either in the upper half of the bar, and the cell under it is one
  -- of the bottom row of the board, or it is not, and there is no cell under it.
  pub status_bar_cell :
      (x y : ℕ)
      → Covers layout status_bar x y
      → (window : Window F) → window.width ≡ exact.value (pos resolution.0)
      → window.height ≡ exact.value (pos resolution.1)
      → (IsUpper layout status_bar x y
          × (cell_under float window (exact.value (pos x), exact.value (pos y))
              ≡ some (6 + x / 160)))
        ⊎ ((¬ IsUpper layout status_bar x y)
            × (cell_under float window (exact.value (pos x), exact.value (pos y)) ≡ none))
  unfolding status_bar resolution
  status_bar_cell x y (l, r, t, b) window ew eh =
      let no_px = layout.resolve_px 0 540 in
      let tall = layout.resolve_px 60 540 in
      let start = layout.resolve_px 0 480 in
      let wide = layout.resolve_percent 100 480 in
      let left : x < 480 = rw (start, wide) at r in
      let top : 480 ≤ y = omega (arith, no_px, tall) in
      let low : y < 540 = omega (arith, no_px) in
      let there =
        cell_under_lem float exact 240 270 x y (omega arith) (omega arith) (omega arith)
          (omega arith) window ew eh in
      elim (dec_lt y 510) [
        | yes high ↦ inl (omega (arith, no_px, tall), ((there (6 + x / 160)).0.1 (omega int_laws)))
        | no below ↦ inr (
          λ h. below (omega (arith, no_px, tall)),
          elim (Option-cases (cell_under float window (exact.value (pos x), exact.value (pos y)))) [
            | inl e ↦ e
            | inr (at, e) ↦ let inside = (there at).0.0 e in absurd (omega int_laws)
          ],
        )
      ]
