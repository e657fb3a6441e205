-- ===== src/Tests/Source/Boards.antt =====
-- The tests of store/src/board.rs.
use tic_tac_tussle.Base.{
  ℕ, ◌≡◌, refl, Bool, true, false, not, Option, some, none, List, [], ◌∷◌, ok, or_panic, ◌>>=◌,
  Outcome,
}
use tic_tac_tussle.Base.Vec
use tic_tac_tussle.Base.Vec.{replicate, set?}
use tic_tac_tussle.State.{Symbol, empty, occupied, eq_symbol, Board}
use tic_tac_tussle.Board.{winning_symbol, is_full}
use tic_tac_tussle.Tests.Source.{Test, assert, run_all}

-- `b`; an index past the board panics.
abbrev fill : Board → List (ℕ × Symbol) → Outcome (Unit {0}) Board
fill board [] = ok board
fill board ((i, s) ∷ cells) = do next ← or_panic (set? board i (occupied s)); fill next cells

abbrev b : List (ℕ × Symbol) → Outcome (Unit {0}) Board
b cells = fill (replicate 9 empty) cells

-- `assert_eq!` on an optional symbol
abbrev eq_symbols : Option Symbol → Option Symbol → Bool
eq_symbols none none = true
eq_symbols (some s) (some t) = eq_symbol s t
eq_symbols _ _ = false

abbrev row_win : Test
row_win = do
  board ← b ((0, Symbol.x) ∷ (1, Symbol.x) ∷ (2, Symbol.x) ∷ [])
  assert (eq_symbols (winning_symbol board) (some Symbol.x))

abbrev col_win : Test
col_win = do
  board ← b ((0, Symbol.o) ∷ (3, Symbol.o) ∷ (6, Symbol.o) ∷ [])
  assert (eq_symbols (winning_symbol board) (some Symbol.o))

abbrev diag_win : Test
diag_win = do
  board ← b ((0, Symbol.x) ∷ (4, Symbol.x) ∷ (8, Symbol.x) ∷ [])
  assert (eq_symbols (winning_symbol board) (some Symbol.x))

abbrev no_win : Test
no_win = do
  board ← b ((0, Symbol.x) ∷ (1, Symbol.o) ∷ [])
  assert (eq_symbols (winning_symbol board) none)

abbrev full : Test
full = assert (is_full (replicate 9 (occupied Symbol.x)))

abbrev not_full : Test
not_full = do board ← b ((0, Symbol.x) ∷ []); assert (not (is_full board))

-- They all pass.
boards_pass : run_all (row_win ∷ col_win ∷ diag_win ∷ no_win ∷ full ∷ not_full ∷ []) ≡ ok tt
unfolding winning_symbol is_full Vec.replicate Vec.set Vec.all Vec.get_elem?
boards_pass = refl
