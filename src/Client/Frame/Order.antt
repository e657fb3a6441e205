-- ===== src/Client/Frame/Order.antt =====
-- client/src/main.rs: the order of `render_pieces` and `update_pair` in a frame.
use tic_tac_tussle.Base.{
  ℕ, ◌≡◌, ◌≢◌, refl, ap, ◌∙◌, some, none, inl, inr, Option-cases, String, List, [], ◌∷◌, ◌++◌, map,
  drop,
}
use tic_tac_tussle.State.{PlayerId, GameState, lobby}
use tic_tac_tussle.Events.{GameEvent, tile_placed, player_joined, game_started, game_ended}
use tic_tac_tussle.State.Pair.{PlayerPair, symbol_of}
use tic_tac_tussle.Decider.{hydrate}
use tic_tac_tussle.Decider.Branches.{symbol_for}
use tic_tac_tussle.Decider.History.{IsHistory}
use tic_tac_tussle.Client.{Client, update_pair}
use tic_tac_tussle.Client.Screen.{Float}
use tic_tac_tussle.Client.Display.{Palette, Piece, piece, render_pieces, symbol_text}
use tic_tac_tussle.Client.Pieces.{letter, symbol_text-letter}
use tic_tac_tussle.Client.Players.{update_pair_lem}
use tic_tac_tussle.Client.Frame.{App, run_systems, pair_system, pieces_system}

-- Who placed the tiles.
abbrev pub placers : List GameEvent → List PlayerId
placers [] = []
placers (tile_placed p at ∷ l) = p ∷ placers l
placers (_ ∷ l) = placers l

update_pair-written : (c : Client) → (update_pair c).written ≡ c.written
unfolding update_pair
update_pair-written c = elim (Option-cases c.maybe_pair) [
  | inl e ↦ rw e refl
  | inr (pair, e) ↦ rw e refl
]

module _ {F K : Type 0} (float : Float F) (palette : Palette F K) where
  -- The letters of pieces.
  abbrev pub texts : List (Piece F K) → List String
  texts l = map (λ d. d.text) l

  texts-render_pieces :
      (c : Client) (t : PlayerId → String) (l : List GameEvent)
      → ((p : PlayerId) (at : ℕ) → (piece float palette c p at).text ≡ t p)
      → texts (render_pieces float palette l c) ≡ map t (placers l)
  unfolding render_pieces
  texts-render_pieces c t [] h = refl
  texts-render_pieces c t (tile_placed p at ∷ l) h =
      rw (h p at) (ap (◌∷◌ (t p)) (texts-render_pieces c t l h))
  texts-render_pieces c t (player_joined p name ∷ l) h = texts-render_pieces c t l h
  texts-render_pieces c t (game_started p ∷ l) h = texts-render_pieces c t l h
  texts-render_pieces c t (GameEvent.player_left p ∷ l) h = texts-render_pieces c t l h
  texts-render_pieces c t (game_ended reason ∷ l) h = texts-render_pieces c t l h

  piece-unknown :
      (c : Client) (p : PlayerId) (at : ℕ)
      → c.maybe_pair ≡ none
      → (piece float palette c p at).text ≡ "?"
  unfolding piece symbol_text
  piece-unknown c p at h = rw h refl

  piece-known :
      (c : Client) (pair : PlayerPair) (p : PlayerId) (at : ℕ)
      → c.maybe_pair ≡ some pair
      → (piece float palette c p at).text ≡ letter (symbol_of pair p)
  unfolding piece
  piece-known c pair p at h = rw h (symbol_text-letter (symbol_of pair p))

  -- Where a client that has no pair has received the log of a started game, as one that connects
  -- again does: if render_pieces comes right before update_pair in the frame, each piece that it
  -- spawns has the letter ?, and if it comes right after, each has the letter of its player: X for
  -- the player in the first seat, O for another.
  pub pieces_order :
      (a : App F K) (s : GameState)
      → IsHistory (a.client).received_events
      → hydrate (a.client).received_events ≡ some s
      → s.stage ≢ lobby
      → (a.client).maybe_pair ≡ none
      → let waiting = placers (drop a.pieces_read (a.client).written) in
        ((early : App F K) × (spawned : List (Piece F K)) × (run_systems
              (pieces_system float palette ∷ pair_system ∷ [])
              a
            ≡ some early)
          × (early.pieces ≡ a.pieces ++ spawned)
          × (texts spawned ≡ map (λ p. "?") waiting))
        × ((late : App F K) × (spawned : List (Piece F K)) × (run_systems
                (pair_system ∷ pieces_system float palette ∷ [])
                a
              ≡ some late)
            × (late.pieces ≡ a.pieces ++ spawned)
            × (texts spawned ≡ map (λ p. letter (symbol_for s p)) waiting))
  unfolding run_systems update_pair
  pieces_order a s past h started unknown =
      let waiting : List GameEvent = drop a.pieces_read (a.client).written in
      let c = update_pair a.client in
      let (pair, found, first, second, seats) = update_pair_lem a.client s past h started unknown in
      (
        (
          _,
          render_pieces float palette waiting a.client,
          refl,
          refl,
          texts-render_pieces a.client (λ p. "?") waiting
              (λ p at. piece-unknown a.client p at unknown),
        ),
        (
          _,
          render_pieces float palette waiting c,
          refl,
          ap (λ l. a.pieces ++ render_pieces float palette (drop a.pieces_read l) c)
              (update_pair-written a.client),
          texts-render_pieces c (λ p. letter (symbol_for s p)) waiting
              (λ p at. piece-known c pair p at found ∙ ap letter (seats p)),
        ),
      )
