-- ===== src/Session.antt =====
-- server/src/main.rs and client/src/main.rs together: a server and the frames of one of its clients,
-- in any order, over a channel that is reliable and ordered.
pub mod Following
pub mod Consistent
pub mod Click
pub mod Table
pub mod Agreement
pub mod Opening
use mathlib.Core.List
use tic_tac_tussle.Base.{ℕ, ◌≡◌, true, Option, some, none, List, [], ◌++◌, Bytes, String}
use tic_tac_tussle.State.{GameId, default}
use tic_tac_tussle.Commands.{Stamp, GameCommand}
use tic_tac_tussle.Events.{GameEvent}
use tic_tac_tussle.Ports.{EventPublisher, Anyhow}
use tic_tac_tussle.Server.{Server}
use tic_tac_tussle.Server.Main.{Round, main_loop}
use tic_tac_tussle.Server.Runs.{Each}
use tic_tac_tussle.Network.{Codec, Renet, renet_broadcaster}
use tic_tac_tussle.Network.Rounds.{IsInStep}
use tic_tac_tussle.Network.Sessions.{Elsewhere}
use tic_tac_tussle.Client.Screen.{Float}
use tic_tac_tussle.Client.Display.{Palette}
use tic_tac_tussle.Client.Frame.{App, Inputs, System, update_systems, frame}

-- The server, the client, and the messages that the client has received.
pub record World (P N F K : Type 0) : Type 0 where
  pub server : Server P N
  pub app : App F K
  pub taken : List Bytes

module _ {E P N F K : Type 0} (any : Anyhow E) (codec : Codec E GameEvent) (renet : Renet N)
    (port : EventPublisher E P) (stamps : ℕ → Stamp) (name_of : ℕ → String)
    (decode : Bytes → Option GameCommand) (game_id : GameId) (float : Float F)
    (palette : Palette F K) (commands : Codec E GameCommand) (username : String) (id : ℕ) where
  -- The network's state on the server.
  abbrev pub network : World P N F K → N
  network w = w.server.service.broadcaster

  pub data Step (w : World P N F K) : World P N F K → Type 0 where
    -- Rounds of the server in which this client does not connect again.
    rounds :
        (l : List (Round E N))
        → Each (Elsewhere any codec renet port stamps id) l
        → Step w (record w {
          server =
              (main_loop any port
                (renet_broadcaster any codec renet)
                stamps
                name_of
                decode
                game_id
                l
                w.server).1;
        })
    -- A frame of the client, while it is connected: it receives the next messages of those that were
    -- sent to it, however many of them are there yet.
    client_frame :
        (i : Inputs F) {order : List (System F K)} (later : List Bytes) {app : App F K}
        → List.Permᴰ order (update_systems float palette commands codec id username i)
        → renet.is_connected (network w) id ≡ true
        → renet.sent (network w) id ≡ w.taken ++ (i.received ++ later)
        → frame float palette commands codec id username order i w.app ≡ some app
        → Step w (record w { app = app; taken = w.taken ++ i.received })

  -- The client has connected, and has received nothing yet.
  pub record IsBeginning (w : World P N F K) : Type 0 where
    pub in_step : IsInStep any codec renet port stamps id w.server.service
    pub nothing_taken : w.taken ≡ []
    pub nothing_received : (w.app.client).received_events ≡ []
    pub no_pair : (w.app.client).maybe_pair ≡ none
    pub first_state : (w.app.client).state ≡ default

  pub data Reach (first : World P N F K) : World P N F K → Type 0 where
    start : Reach first first
    step : {w v : World P N F K} → Reach first w → Step w v → Reach first v
