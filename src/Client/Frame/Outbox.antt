-- ===== src/Client/Frame/Outbox.antt =====
-- client/src/main.rs: what is drawn does not depend on the messages sent.
use tic_tac_tussle.Base.{◌≡◌, refl, ap, Option, some, none, List, [], ◌∷◌, Bytes}
use tic_tac_tussle.Events.{
  GameEvent, player_joined, game_started, tile_placed, game_ended, EndGameReason, player_won, draw,
}
use tic_tac_tussle.Client.{Client}
use tic_tac_tussle.Client.Screen.{Float, Window}
use tic_tac_tussle.Client.Input.{hovered}
use tic_tac_tussle.Client.Display.{Palette, Scene, piece, render_pieces, render_hover}
use tic_tac_tussle.Client.Status.{
  Status, on_event, turn_status, end_status, name_or_opponent, update_status,
}

module _ {F K : Type 0} (float : Float F) (palette : Palette F K) where
  -- What is drawn does not depend on the outbox.
  pub render_pieces-outbox :
      (l : List GameEvent) (c : Client) (o : List Bytes)
      → render_pieces float palette l (record c { outbox = o }) ≡ render_pieces float palette l c
  unfolding render_pieces piece
  render_pieces-outbox [] c o = refl
  render_pieces-outbox (tile_placed p at ∷ l) c o =
      ap (◌∷◌ (piece float palette c p at)) (render_pieces-outbox l c o)
  render_pieces-outbox (player_joined p name ∷ l) c o = render_pieces-outbox l c o
  render_pieces-outbox (game_started p ∷ l) c o = render_pieces-outbox l c o
  render_pieces-outbox (GameEvent.player_left p ∷ l) c o = render_pieces-outbox l c o
  render_pieces-outbox (game_ended reason ∷ l) c o = render_pieces-outbox l c o

  on_event-outbox :
      (e : GameEvent) (c : Client) (o : List Bytes) (q : Status K)
      → on_event palette (record c { outbox = o }) e q ≡ on_event palette c e q
  unfolding on_event turn_status end_status name_or_opponent
  on_event-outbox (tile_placed p at) c o q = refl
  on_event-outbox (player_joined p name) c o q = refl
  on_event-outbox (game_started p) c o q = refl
  on_event-outbox (GameEvent.player_left p) c o q = refl
  on_event-outbox (game_ended (player_won p)) c o q = refl
  on_event-outbox (game_ended draw) c o q = refl
  on_event-outbox (game_ended (EndGameReason.player_left p)) c o q = refl

  pub update_status-outbox :
      (l : List GameEvent) (c : Client) (o : List Bytes) (q : Option (Status K))
      → update_status palette l (record c { outbox = o }) q ≡ update_status palette l c q
  unfolding update_status
  update_status-outbox [] c o q = refl
  update_status-outbox (e ∷ l) c o none = update_status-outbox l c o none
  update_status-outbox (e ∷ l) c o (some q) =
      rw (on_event-outbox e c o q) (update_status-outbox l c o (some (on_event palette c e q)))

  pub render_hover-outbox :
      (windows : Option (Window F)) (c : Client) (o : List Bytes) (scene : Scene F K)
      → render_hover float palette windows (record c { outbox = o }) scene
        ≡ render_hover float palette windows c scene
  unfolding render_hover hovered
  render_hover-outbox none c o scene = refl
  render_hover-outbox (some window) c o scene = refl
