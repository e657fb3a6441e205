-- ===== src/Client/Pieces.antt =====
-- client/src/main.rs: the pieces that `render_pieces` spawns are those of the board.
use mathlib.Core.List.Memᴰ
use tic_tac_tussle.Base.{
  ℕ, ◌<◌, ◌≡◌, ◌⊎◌, inl, inr, refl, sym, ap, subst, String, ◌∙◌, some, List, [], ◌∷◌, ◌++◌, Memᴰ,
}
use tic_tac_tussle.Base.Vec.{get_elem?}
use tic_tac_tussle.Base.Vec.Laws.{lt-get_elem?}
use tic_tac_tussle.State.{PlayerId, Symbol, occupied}
use tic_tac_tussle.State.Pair.{PlayerPair, symbol_of}
use tic_tac_tussle.Events.{GameEvent, player_joined, game_started, tile_placed, game_ended}
use tic_tac_tussle.Decider.{hydrate}
use tic_tac_tussle.Decider.Branches.{symbol_for}
use tic_tac_tussle.Decider.Game.{Shows, hydrate-Shows, moves}
use tic_tac_tussle.Client.{Client, joins, pair_of}
use tic_tac_tussle.Client.Players.{pair_of-joins}
use tic_tac_tussle.Client.Screen.{Float, cell_pos}
use tic_tac_tussle.Client.Display.{Palette, Piece, piece, render_pieces, symbol_text}
use tic_tac_tussle.Decider.Placements.{IsRecorded, hydrate-IsRecorded, lawful_range}
use tic_tac_tussle.Decider.History.{IsHistory}

-- The letter of a symbol.
abbrev pub letter : Symbol → String
letter Symbol.x = "X"
letter Symbol.o = "O"

pub symbol_text-letter : (t : Symbol) → symbol_text (some t) ≡ letter t
unfolding symbol_text
symbol_text-letter Symbol.x = refl
symbol_text-letter Symbol.o = refl

module _ {F K : Type 0} (float : Float F) (palette : Palette F K) (c : Client) where
  same_piece :
      {p q : PlayerId} {at i : ℕ}
      → p ≡ q
      → at ≡ i
      → piece float palette c p at ≡ piece float palette c q i
  same_piece h k = rw (h, k) refl

  placed_piece :
      (l : List GameEvent) (p : PlayerId) (at : ℕ)
      → Memᴰ (tile_placed p at) l
      → Memᴰ (piece float palette c p at) (render_pieces float palette l c)
  unfolding render_pieces
  placed_piece [] p at m = absurd (Memᴰ.not-nil m)
  placed_piece (tile_placed q i ∷ l) p at m = elim (Memᴰ.cases_cons m) [
    | inl e ↦ Memᴰ.head (same_piece (cc) (cc))
    | inr k ↦ Memᴰ.tail (placed_piece l p at k)
  ]
  placed_piece (player_joined q n ∷ l) p at m = elim (Memᴰ.cases_cons m) [
    | inl e ↦ cc
    | inr k ↦ placed_piece l p at k
  ]
  placed_piece (game_started q ∷ l) p at m = elim (Memᴰ.cases_cons m) [
    | inl e ↦ cc
    | inr k ↦ placed_piece l p at k
  ]
  placed_piece (GameEvent.player_left q ∷ l) p at m = elim (Memᴰ.cases_cons m) [
    | inl e ↦ cc
    | inr k ↦ placed_piece l p at k
  ]
  placed_piece (game_ended r ∷ l) p at m = elim (Memᴰ.cases_cons m) [
    | inl e ↦ cc
    | inr k ↦ placed_piece l p at k
  ]

  piece_placed :
      (l : List GameEvent) (drawn : Piece F K)
      → Memᴰ drawn (render_pieces float palette l c)
      → (p : PlayerId) × (at : ℕ) × Memᴰ (tile_placed p at) l × (drawn ≡ piece float palette c p at)
  unfolding render_pieces
  piece_placed [] drawn m = absurd (Memᴰ.not-nil m)
  piece_placed (tile_placed q i ∷ l) drawn m = elim (Memᴰ.cases_cons m) [
    | inl e ↦ (q, i, Memᴰ.head refl, e)
    | inr k ↦ let (p, at, n, e) = piece_placed l drawn k in (p, at, Memᴰ.tail n, e)
  ]
  piece_placed (player_joined q n ∷ l) drawn m =
      let (p, at, k, e) = piece_placed l drawn m in (p, at, Memᴰ.tail k, e)
  piece_placed (game_started q ∷ l) drawn m =
      let (p, at, k, e) = piece_placed l drawn m in (p, at, Memᴰ.tail k, e)
  piece_placed (GameEvent.player_left q ∷ l) drawn m =
      let (p, at, k, e) = piece_placed l drawn m in (p, at, Memᴰ.tail k, e)
  piece_placed (game_ended r ∷ l) drawn m =
      let (p, at, k, e) = piece_placed l drawn m in (p, at, Memᴰ.tail k, e)

  -- A piece shows `t` on the cell `i`.
  abbrev pub IsPieceOf : Piece F K → ℕ → Symbol → Type 0
  IsPieceOf drawn i t =
      (drawn.text ≡ letter t)
      × (drawn.sprite.translation ≡ ((cell_pos float i).0, (cell_pos float i).1, float.of 1))

  piece-IsPieceOf :
      (pair : PlayerPair) (p : PlayerId) (i : ℕ) (t : Symbol)
      → c.maybe_pair ≡ some pair
      → symbol_of pair p ≡ t
      → IsPieceOf (piece float palette c p i) i t
  unfolding piece
  piece-IsPieceOf pair p i t known h = (rw (known, h) (symbol_text-letter t), refl)

  -- A client that has received the log of a game, and knows the pair that it found in the first
  -- events of it, draws what is on the board: a piece that it spawns for the last events of the log
  -- shows the letter of an occupied tile, X or O, on the cell of that tile; and an occupied tile
  -- has such a piece, or was placed before those events.
  pub render_pieces_lem :
      (pair : PlayerPair) (early later before last : List GameEvent)
      → c.maybe_pair ≡ some pair
      → pair_of (joins early) ≡ some pair
      → c.received_events ≡ early ++ later
      → c.received_events ≡ before ++ last
      → IsHistory c.received_events
      → hydrate c.received_events ≡ some c.state
      → ((drawn : Piece F K)
          → Memᴰ drawn (render_pieces float palette last c)
          → (i : ℕ) × (t : Symbol) × (get_elem? c.state.board i ≡ some (occupied t))
            × IsPieceOf drawn i t)
        × ((i : ℕ) (t : Symbol)
            → get_elem? c.state.board i ≡ some (occupied t)
            → ((p : PlayerId) × Memᴰ (tile_placed p i) before)
              ⊎ ((drawn : Piece F K) × Memᴰ drawn (render_pieces float palette last c)
                  × IsPieceOf drawn i t))
  render_pieces_lem pair early later before last known found from split past h =
      let seats_agree : (p : PlayerId) → symbol_of pair p ≡ symbol_for c.state p =
        pair_of-joins early later c.state pair (subst IsHistory from past)
          (ap hydrate (sym from) ∙ h) found in
      let recorded : IsRecorded (before ++ last) c.state =
        subst (λ l. IsRecorded l c.state) split (hydrate-IsRecorded past h) in
      let shows : Shows (moves c.received_events) c.state = hydrate-Shows past h in
      (
        λ drawn m.
            let (p, i, k, e) = piece_placed last drawn m in
            let range : i < 9 =
              lawful_range c.received_events shows.lawful p i
                (subst (Memᴰ (tile_placed p i)) (sym split) (Memᴰ.append_right before k)) in
            (
              i,
              symbol_for c.state p,
              (recorded i (symbol_for c.state p) range).1 (p, Memᴰ.append_right before k, refl),
              subst (λ d. IsPieceOf d i (symbol_for c.state p)) (sym e)
                  (piece-IsPieceOf pair p i (symbol_for c.state p) known (seats_agree p)),
            ),
        λ i t on_board.
            let (p, m, e) = (recorded i t (lt-get_elem? c.state.board i on_board)).0 on_board in
            elim (Memᴰ.append_cases before m) [
              | inl old ↦ inl (p, old)
              | inr new ↦ inr (
                piece float palette c p i,
                placed_piece last p i new,
                piece-IsPieceOf pair p i t known (seats_agree p ∙ e),
              )
            ],
      )
