-- ===== src/Client/Frame.antt =====
-- client/src/main.rs: the systems that `main` adds, and one frame of the app: those of `Update` in the
-- order that Bevy's executor gives them, which the program does not fix, and `PostUpdate`.
pub mod Order
pub mod Keeps
pub mod Outbox
pub mod Commute
pub mod Steady
use tic_tac_tussle.Base.{
  ℕ, Bool, Option, none, some, List, [], ◌∷◌, ◌++◌, String, Bytes, length, drop,
}
use tic_tac_tussle.Commands.{GameCommand}
use tic_tac_tussle.Events.{GameEvent}
use tic_tac_tussle.Network.{Codec}
use tic_tac_tussle.Client.{Client, set_local_player_id, update_pair, receive_server_events}
use tic_tac_tussle.Client.Screen.{Float, Window}
use tic_tac_tussle.Client.Input.{handle_input}
use tic_tac_tussle.Client.Display.{Palette, Piece, Scene, render_pieces, render_hover}
use tic_tac_tussle.Client.Status.{Status, update_status}

-- The resources and the entities, and how many messages each of the two readers has read.
pub record App (F K : Type 0) : Type 0 where
  pub client : Client
  pub pieces : List (Piece F K)
  pub pieces_read : ℕ
  pub scene : Scene F K
  pub status : Option (Status K)
  pub status_read : ℕ

-- What a frame finds: the window, whether the mouse button was just pressed, and the messages.
pub record Inputs (F : Type 0) : Type 0 where
  pub windows : Option (Window F)
  pub just_pressed : Bool
  pub received : List Bytes

-- A system; `none` is a panic.
abbrev pub System : Type 0 → Type 0 → Type 0
System F K = App F K → Option (App F K)

-- The systems one after the other.
unfoldable pub run_systems : {F K : Type 0} → List (System F K) → System F K
run_systems [] a = some a
run_systems (system ∷ rest) a = elim (system a) [ some b ↦ run_systems rest b | none ↦ none ]

abbrev pub on_client : {F K : Type 0} → (Client → Option Client) → System F K
on_client f a = elim (f a.client) [ some c ↦ some (record a { client = c }) | none ↦ none ]

-- `update_pair` as a system.
abbrev pub pair_system : {F K : Type 0} → System F K
pair_system a = on_client (λ c. some (update_pair c)) a

module _ {F K : Type 0} (float : Float F) (palette : Palette F K) where
  -- `render_pieces` as a system, with its reader.
  abbrev pub pieces_system : System F K
  pieces_system a = some (record a {
    pieces =
        a.pieces ++ render_pieces float palette (drop a.pieces_read (a.client).written) a.client;
    pieces_read = length (a.client).written;
  })

  -- `render_hover` as a system.
  abbrev pub hover_system : Option (Window F) → System F K
  hover_system windows a = elim (render_hover float palette windows a.client a.scene) [
    | some scene ↦ some (record a { scene = scene })
    | none ↦ none
  ]

  -- `update_status` as a system, with its reader.
  abbrev pub status_system : System F K
  status_system a = some (record a {
    status = update_status palette (drop a.status_read (a.client).written) a.client a.status;
    status_read = length (a.client).written;
  })

  module _ {E : Type 0} (commands : Codec E GameCommand) (codec : Codec E GameEvent) (client_id : ℕ)
      (username : String) where
    -- The systems that `main` adds to `Update`.
    unfoldable pub update_systems : Inputs F → List (System F K)
    update_systems i =
        on_client (set_local_player_id commands client_id username)
        ∷ pair_system
        ∷ on_client (handle_input float commands i.windows i.just_pressed)
        ∷ pieces_system
        ∷ hover_system i.windows
        ∷ status_system
        ∷ []

    -- A frame whose executor takes the systems of `Update` in this order.
    unfoldable pub frame : List (System F K) → Inputs F → System F K
    unfolding run_systems
    frame order i a = elim (run_systems order a) [
      | some b ↦ on_client (receive_server_events codec i.received) b
      | none ↦ none
    ]
