-- ===== src/Decider/Winner.antt =====
-- store/src/decider.rs: how a move ends the game, against the lines of the grid.
use tic_tac_tussle.Base.{
  ℕ, ◌≡◌, ◌↔◌, none, some, [], ◌∷◌, ◌⊎◌, Option-cases, Bool-cases, inl, inr, subst, ◌<◌,
}
use tic_tac_tussle.State.{PlayerId, Symbol, Board, GameState}
use tic_tac_tussle.Events.{player_won, draw, game_ended}
use tic_tac_tussle.Board.{winning_symbol, is_full}
use tic_tac_tussle.Board.Wins.{
  Cell, Wins, winning_symbol_sound, winning_symbol_complete, Wins-set, is_full_lem,
}
use tic_tac_tussle.Decider.{endings}
use tic_tac_tussle.Decider.Branches.{IsLegal, placed, symbol_for}
use tic_tac_tussle.Decider.Invariant.{IsValid}

-- No player has three in a line.
abbrev pub NoLine : Board → Type 0
NoLine b = (mark : Symbol) → ¬ Wins b mark

-- Every tile is occupied.
abbrev pub IsFilled : Board → Type 0
IsFilled b = (i : ℕ) → i < 9 → (mark : Symbol) × Cell b mark i

module _ (s : GameState) (p : PlayerId) (at : ℕ) (v : IsValid s) (legal : IsLegal s p at) where
  -- A legal move can only complete a line of the player's own symbol.
  winner-symbol : (mark : Symbol) → Wins (placed s p at) mark → mark ≡ symbol_for s p
  winner-symbol mark w = Wins-set s.board at (symbol_for s p) mark legal.2 (v.undecided legal.0) w

  lines :
      (Wins (placed s p at) (symbol_for s p)
        × ((t : Symbol) × (winning_symbol (placed s p at) ≡ some t)))
      ⊎ (NoLine (placed s p at) × (winning_symbol (placed s p at) ≡ none))
  lines = elim (Option-cases (winning_symbol (placed s p at))) [
    | inl e ↦ inr (λ mark w. let found = winning_symbol_complete _ mark w in cc, e)
    | inr (t, e) ↦
        let w = winning_symbol_sound _ t e in
        inl (subst (Wins (placed s p at)) (winner-symbol t w) w, (t, e))
  ]

  -- In a valid game a legal move ends the game with the player as the winner exactly when it
  -- completes a line of the player's symbol, and then no line of the other symbol is there; it ends
  -- the game in a draw exactly when it fills the board and no line is complete; otherwise nothing
  -- follows it.
  pub endings_lem :
      ((endings p (placed s p at) ≡ game_ended (player_won p) ∷ [])
        ↔ Wins (placed s p at) (symbol_for s p))
      × ((mark : Symbol) → Wins (placed s p at) mark → mark ≡ symbol_for s p)
      × ((endings p (placed s p at) ≡ game_ended draw ∷ [])
          ↔ (IsFilled (placed s p at) × NoLine (placed s p at)))
      × ((endings p (placed s p at) ≡ []) ↔ (¬ IsFilled (placed s p at) × NoLine (placed s p at)))
  endings_lem = elim lines [
    | inl (w, (t, e)) ↦
        let run : endings p (placed s p at) ≡ game_ended (player_won p) ∷ [] = rw e in
        (
          (λ h. w, λ w'. run),
          winner-symbol,
          (λ h. absurd (cc), λ h. absurd (h.1 _ w)),
          (λ h. absurd (cc), λ h. absurd (h.1 _ w)),
        )
    | inr (n, e) ↦ elim (Bool-cases (is_full (placed s p at))) [
      | inl f ↦
          let run : endings p (placed s p at) ≡ game_ended draw ∷ [] = rw (e, f) in
          let filled = (is_full_lem (placed s p at)).0 f in
          (
            (λ h. absurd (cc), λ w. absurd (n _ w)),
            winner-symbol,
            (λ h. (filled, n), λ h. run),
            (λ h. absurd (cc), λ h. absurd (h.0 filled)),
          )
      | inr f ↦
          let run : endings p (placed s p at) ≡ [] = rw (e, f) in
          let open_tile : ¬ IsFilled (placed s p at) =
            λ k. let g = (is_full_lem (placed s p at)).1 k in cc in
          (
            (λ h. absurd (cc), λ w. absurd (n _ w)),
            winner-symbol,
            (λ h. absurd (cc), λ h. absurd (open_tile h.0)),
            (λ h. (open_tile, n), λ h. run),
          )
    ]
  ]
