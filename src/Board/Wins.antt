-- ===== src/Board/Wins.antt =====
-- store/src/board.rs against the geometry of the grid: rows, columns and the two diagonals.
use tic_tac_tussle.Base.{
  ◌&◌, ℕ, zero, suc, ◌+◌, ◌-◌, ◌*◌, ◌<◌, ◌≡◌, ◌≢◌, refl, ◌↔◌, true, none, some, List, [], ◌∷◌, ◌⊎◌,
  subst, is_some, arith, not, ap, Option-cases, inl, inr, ◌∙◌,
}
use tic_tac_tussle.Base.Vec.{get_elem?, set}
use tic_tac_tussle.Base.Vec.Laws.{
  get_elem?-lt, lt-get_elem?, get_elem?-set_self, get_elem?-set_ne, all_sound, all_complete,
}
use tic_tac_tussle.State.{Symbol, Symbol-discrete, Tile, empty, occupied, eq_tile, Board}
use tic_tac_tussle.Board.{
  Pattern, win_patterns, match_pattern, find_pattern, winning_symbol, is_full,
}

-- The tile with index `i` carries the symbol `s`.
abbrev pub Cell : Board → Symbol → ℕ → Type 0
Cell b s i = get_elem? b i ≡ some (occupied s)

-- Three in a line on the grid whose tile in row `r` and column `c` has index `3 * r + c`.
pub data Wins (b : Board) (s : Symbol) : Type 0 where
  row : (r : ℕ) → r < 3 → ((c : ℕ) → c < 3 → Cell b s (3 * r + c)) → Wins b s
  column : (c : ℕ) → c < 3 → ((r : ℕ) → r < 3 → Cell b s (3 * r + c)) → Wins b s
  diagonal : ((k : ℕ) → k < 3 → Cell b s (3 * k + k)) → Wins b s
  antidiagonal : ((k : ℕ) → k < 3 → Cell b s (3 * k + (2 - k))) → Wins b s

abbrev pub Triple : Board → Symbol → Pattern → Type 0
Triple b s (i, j, k) = Cell b s i × Cell b s j × Cell b s k

pub match_pattern_sound :
    (b : Board) (s : Symbol) (p : Pattern) → match_pattern b p ≡ some s → Triple b s p
unfolding match_pattern
match_pattern_sound b s (i, j, k) h = ground arith

pub match_pattern_complete :
    (b : Board) (s : Symbol) (p : Pattern) → Triple b s p → match_pattern b p ≡ some s
unfolding match_pattern
match_pattern_complete b s (i, j, k) h = ground arith

-- A property of every pattern of the list that a match gives.
abbrev Each : (Pattern → Type 0) → List Pattern → Type 0
Each P [] = Unit
Each P (p ∷ l) = P p × Each P l

find_pattern_sound :
    (b : Board) (s : Symbol) (Q : Type 0) (l : List Pattern)
    → Each (λ p. Triple b s p → Q) l
    → find_pattern b l ≡ some s
    → Q
unfolding find_pattern
find_pattern_sound b s Q [] each h = cc
find_pattern_sound b s Q (p ∷ l) each h = elim (Option-cases (match_pattern b p)) [
  | inl e ↦ find_pattern_sound b s Q l each.1 (rw (e, find_pattern) at h)
  | inr (t, e) ↦ each.0 (match_pattern_sound b s p (e ∙ rw (e, find_pattern) at h))
]

-- An index below three is 0, 1 or 2.
three : (P : ℕ → Type 0) → P 0 → P 1 → P 2 → (c : ℕ) → c < 3 → P c
three P p q r zero h = p
three P p q r (suc zero) h = q
three P p q r (suc (suc zero)) h = r
three P p q r (suc (suc (suc c))) h = absurd (omega arith)

-- Membership in a list of patterns.
abbrev In : Pattern → List Pattern → Type 0
In p [] = ⊥
In p (q ∷ l) = (p ≡ q) ⊎ In p l

module _ (b : Board) (s : Symbol) where
  of_row : (r : ℕ) → r < 3 → Triple b s (3 * r + 0, 3 * r + 1, 3 * r + 2) → Wins b s
  of_row r h (p, q, t) = row r h (three (λ c. Cell b s (3 * r + c)) p q t)

  of_column : (c : ℕ) → c < 3 → Triple b s (3 * 0 + c, 3 * 1 + c, 3 * 2 + c) → Wins b s
  of_column c h (p, q, t) = column c h (three (λ r. Cell b s (3 * r + c)) p q t)

  of_diagonal : Triple b s (0, 4, 8) → Wins b s
  of_diagonal (p, q, t) = diagonal (three (λ k. Cell b s (3 * k + k)) p q t)

  of_antidiagonal : Triple b s (2, 4, 6) → Wins b s
  of_antidiagonal (p, q, t) = antidiagonal (three (λ k. Cell b s (3 * k + (2 - k))) p q t)

  -- A symbol that `winning_symbol` returns stands three times in a line of the grid.
  pub winning_symbol_sound : winning_symbol b ≡ some s → Wins b s
  unfolding winning_symbol win_patterns
  winning_symbol_sound = find_pattern_sound b s (Wins b s) win_patterns (
      of_row 0 (omega arith)
      & of_row 1 (omega arith)
      & of_row 2 (omega arith)
      & of_column 0 (omega arith)
      & of_column 1 (omega arith)
      & of_column 2 (omega arith)
      & of_diagonal
      & of_antidiagonal
      & tt)

  find_pattern_complete :
      (l : List Pattern) (p : Pattern) → In p l → Triple b s p → is_some (find_pattern b l) ≡ true
  unfolding find_pattern
  find_pattern_complete [] p m h = elim m [ ]
  find_pattern_complete (q ∷ l) p (inl e) h =
      rw (match_pattern_complete b s q (subst (Triple b s) e h), find_pattern)
  find_pattern_complete (q ∷ l) p (inr m) h = elim (Option-cases (match_pattern b q)) [
    | inl e ↦ rw (e, find_pattern) (find_pattern_complete l p m h)
    | inr (t, e) ↦ rw (e, find_pattern)
  ]

  -- A line of the grid is one of the patterns.
  Wins-pattern : Wins b s → (p : Pattern) × In p win_patterns × Triple b s p
  unfolding win_patterns
  Wins-pattern (row r h f) = (
    (3 * r + 0, 3 * r + 1, 3 * r + 2),
    three (λ r. In (3 * r + 0, 3 * r + 1, 3 * r + 2) win_patterns) (inl refl)
        (search (inl, inr) depth 10) (search (inl, inr) depth 10) r h,
    (f 0 (omega arith), f 1 (omega arith), f 2 (omega arith)),
  )
  Wins-pattern (column c h f) = (
    (3 * 0 + c, 3 * 1 + c, 3 * 2 + c),
    three (λ c. In (3 * 0 + c, 3 * 1 + c, 3 * 2 + c) win_patterns) (search (inl, inr) depth 10)
        (search (inl, inr) depth 10) (search (inl, inr) depth 10) c h,
    (f 0 (omega arith), f 1 (omega arith), f 2 (omega arith)),
  )
  Wins-pattern (diagonal f) = (
    (0, 4, 8),
    search (inl, inr) depth 10,
    (f 0 (omega arith), f 1 (omega arith), f 2 (omega arith)),
  )
  Wins-pattern (antidiagonal f) = (
    (2, 4, 6),
    search (inl, inr) depth 10,
    (f 0 (omega arith), f 1 (omega arith), f 2 (omega arith)),
  )

  -- A line of one symbol is never overlooked.
  pub winning_symbol_complete : Wins b s → is_some (winning_symbol b) ≡ true
  unfolding winning_symbol
  winning_symbol_complete w =
      let (p, m, t) = Wins-pattern w in find_pattern_complete win_patterns p m t

  -- A symbol that `winning_symbol` returns stands three times in a line of the grid, and a line of
  -- one symbol is never overlooked.
  pub winning_symbol_lem :
      ((winning_symbol b ≡ some s) → Wins b s) × (Wins b s → is_some (winning_symbol b) ≡ true)
  winning_symbol_lem = (winning_symbol_sound, winning_symbol_complete)

Wins-map : {b b' : Board} {s : Symbol} → ((i : ℕ) → Cell b s i → Cell b' s i) → Wins b s → Wins b' s
Wins-map f (row r h g) = row r h (λ c k. f (3 * r + c) (g c k))
Wins-map f (column c h g) = column c h (λ r k. f (3 * r + c) (g r k))
Wins-map f (diagonal g) = diagonal (λ k h. f (3 * k + k) (g k h))
Wins-map f (antidiagonal g) = antidiagonal (λ k h. f (3 * k + (2 - k)) (g k h))

-- Occupying a tile of a board with no line completes no line of the other symbol.
pub Wins-set :
    (b : Board) (at : ℕ) (s t : Symbol)
    → at < 9
    → winning_symbol b ≡ none
    → Wins (set b at (occupied s)) t
    → t ≡ s
Wins-set b at s t lt old new = elim (Symbol-discrete t s) [
  | yes e ↦ e
  | no ne ↦
      let found : is_some (winning_symbol b) ≡ true =
        winning_symbol_complete b t (Wins-map (before ne) new) in
      absurd (cc)
]
  where
    before : t ≢ s → (i : ℕ) → Cell (set b at (occupied s)) t i → Cell b t i
    before ne i c =
        ground
          (arith, get_elem?-set_self b at (occupied s) lt, get_elem?-set_ne b at i (occupied s))

-- `is_full` holds exactly when every one of the nine tiles carries a symbol.
pub is_full_lem : (b : Board) → (is_full b ≡ true) ↔ ((i : ℕ) → i < 9 → (s : Symbol) × Cell b s i)
unfolding is_full
is_full_lem b = (
  λ full i h.
      let (t, e) = get_elem?-lt b i h in
      let (s, q) = tile t (all_sound _ b i full e) in (s, e ∙ ap some q),
  λ cells. all_complete _ b (λ i t e. let (s, q) = cells i (lt-get_elem? b i e) in ground arith),
)
  where
    tile : (t : Tile) → not (eq_tile t empty) ≡ true → (s : Symbol) × (t ≡ occupied s)
    tile empty h = cc
    tile (occupied s) h = (s, refl)
