-- ===== src/Board.antt =====
-- store/src/board.rs
pub mod Wins
use tic_tac_tussle.Base.{
  ℕ, Option, none, some, List, [], ◌∷◌, Bool, true, false, not, ◌&&◌, if◌then◌else◌,
}
use tic_tac_tussle.Base.Vec.{get_elem?, all}
use tic_tac_tussle.State.{Symbol, Tile, empty, occupied, eq_tile, Board}

abbrev pub Pattern : Type 0
Pattern = ℕ × ℕ × ℕ

unfoldable pub win_patterns : List Pattern
win_patterns =
    (0, 1, 2)
    ∷ (3, 4, 5)
    ∷ (6, 7, 8)
    ∷ (0, 3, 6)
    ∷ (1, 4, 7)
    ∷ (2, 5, 8)
    ∷ (0, 4, 8)
    ∷ (2, 4, 6)
    ∷ []

-- `board[i] == Tile::Occupied(s)`, at the indices of a pattern, which are all in range.
abbrev pub holds : Board → Symbol → ℕ → Bool
holds b s i = elim (get_elem? b i) [ some t ↦ eq_tile t (occupied s) | none ↦ false ]

-- `if let Tile::Occupied(symbol) = board[a]`
abbrev pub symbol_at : Board → ℕ → Option Symbol
symbol_at b i = elim (get_elem? b i) [ some (occupied s) ↦ some s | _ ↦ none ]

-- The closure of `winning_symbol`.
unfoldable pub match_pattern : Board → Pattern → Option Symbol
match_pattern b (i, j, k) = elim (symbol_at b i) [
  | some s ↦ if holds b s j && holds b s k then some s else none
  | none ↦ none
]

-- `find_map` over the patterns
unfoldable pub find_pattern : Board → List Pattern → Option Symbol
unfolding match_pattern
find_pattern b [] = none
find_pattern b (p ∷ rest) = elim (match_pattern b p) [
  | some s ↦ some s
  | none ↦ find_pattern b rest
]

unfoldable pub winning_symbol : Board → Option Symbol
unfolding find_pattern win_patterns
winning_symbol b = find_pattern b win_patterns

unfoldable pub is_full : Board → Bool
is_full b = all (λ t. not (eq_tile t empty)) b
