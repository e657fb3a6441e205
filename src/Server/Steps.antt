-- ===== src/Server/Steps.antt =====
-- server/src/main.rs: what the calls of the game service keep, a round of the game loop keeps.
use tic_tac_tussle.Base.{ℕ, Bytes, sym, subst, Option, some, none, List, [], ◌∷◌, String}
use tic_tac_tussle.State.{GameId}
use tic_tac_tussle.Commands.{Stamp, CommandEnvelope, GameCommand}
use tic_tac_tussle.Ports.{BrokerMessage, EventPublisher, NetworkBroadcaster, Anyhow}
use tic_tac_tussle.Service.{GameService, ◌>>=◌, handle, catch_up, publish}
use tic_tac_tussle.Service.Preserves.{
  Preserves, pure-Preserves, bind-Preserves, warn_on_err-Preserves,
}
use tic_tac_tussle.Server.{
  ServerEvent, client_connected, client_disconnected, BrokerCommand, Inputs, Server, submit,
  handle_connection, handle_connections, on_decoded, client_command, drain_client_commands,
  broker_command, drain_broker_commands, on_service, tick,
}
use tic_tac_tussle.Server.Acks.{settle-service}

-- Every client that connects is one of these.
unfoldable pub Connecting : (ℕ → Type 0) → List (Stamp × ServerEvent) → Type 0
Connecting Welcome [] = Unit
Connecting Welcome ((stamp, client_connected d) ∷ l) = Welcome d × Connecting Welcome l
Connecting Welcome ((stamp, client_disconnected d) ∷ l) = Connecting Welcome l

module _ {E P N : Type 0} (any : Anyhow E) (port : EventPublisher E P)
    (net : NetworkBroadcaster E N) (stamps : ℕ → Stamp) (Inv : GameService P N → Type 0)
    (published : (msg : BrokerMessage) → Preserves Inv (publish any port net stamps msg))
    (handled : (cmd : CommandEnvelope) → Preserves Inv (handle any port net stamps cmd)) where
  abbrev ServerInv : Server P N → Type 0
  ServerInv s = Inv s.service

  pub submit-Preserves : (cmd : CommandEnvelope) → Preserves Inv (submit any port net stamps cmd)
  unfolding submit
  submit-Preserves cmd =
      bind-Preserves Inv _ _ (warn_on_err-Preserves Inv _ (published _))
        (λ u. warn_on_err-Preserves Inv _ (handled cmd))

  on_decoded-Preserves :
      (game_id : GameId) (stamp : Stamp) (cmd : Option GameCommand)
      → Preserves Inv (on_decoded any port net stamps game_id stamp cmd)
  unfolding on_decoded
  on_decoded-Preserves game_id stamp (some cmd) = submit-Preserves _
  on_decoded-Preserves game_id stamp none = pure-Preserves Inv

  drain_client_commands-Preserves :
      (decode : Bytes → Option GameCommand) (game_id : GameId) (l : List (Stamp × Bytes))
      → Preserves Inv (drain_client_commands any port net stamps decode game_id l)
  unfolding drain_client_commands client_command
  drain_client_commands-Preserves decode game_id [] = pure-Preserves Inv
  drain_client_commands-Preserves decode game_id ((stamp, raw) ∷ l) =
      bind-Preserves Inv _ _ (on_decoded-Preserves game_id stamp (decode raw))
        (λ u. drain_client_commands-Preserves decode game_id l)

  broker_command-Preserves :
      (b : BrokerCommand) → Preserves ServerInv (broker_command any port net stamps b)
  unfolding broker_command
  broker_command-Preserves b = record {
    apply = λ s h.
        subst Inv
          (sym (settle-service any b s (handle any port net stamps b.command_envelope s.service)))
          ((handled b.command_envelope).apply s.service h);
  }

  drain_broker_commands-Preserves :
      (l : List BrokerCommand) → Preserves ServerInv (drain_broker_commands any port net stamps l)
  unfolding drain_broker_commands
  drain_broker_commands-Preserves [] = pure-Preserves ServerInv
  drain_broker_commands-Preserves (b ∷ l) =
      bind-Preserves ServerInv _ _ (broker_command-Preserves b)
        (λ u. drain_broker_commands-Preserves l)

  -- The rest of a round, after the server events.
  pub drains-Preserves :
      (decode : Bytes → Option GameCommand) (game_id : GameId) (i : Inputs)
      → Preserves ServerInv (
          on_service (drain_client_commands any port net stamps decode game_id i.messages)
          >>= (λ u. drain_broker_commands any port net stamps i.broker))
  drains-Preserves decode game_id i =
      bind-Preserves ServerInv _ _
        (record {
          apply =
              λ s h. (drain_client_commands-Preserves decode game_id i.messages).apply s.service h;
        })
        (λ u. drain_broker_commands-Preserves i.broker)

  module _ (Welcome : ℕ → Type 0)
      (caught_up : (d : ℕ) → Welcome d → Preserves Inv (catch_up any port net stamps d)) where
    pub handle_connections-Preserves :
        (name_of : ℕ → String) (game_id : GameId) (l : List (Stamp × ServerEvent))
        → Connecting Welcome l
        → Preserves Inv (handle_connections any port net stamps name_of game_id l)
    unfolding handle_connections handle_connection Connecting
    handle_connections-Preserves name_of game_id [] a = pure-Preserves Inv
    handle_connections-Preserves name_of game_id ((stamp, client_connected d) ∷ l) (w, a) =
        bind-Preserves Inv _ _
          (bind-Preserves Inv _ _ (warn_on_err-Preserves Inv _ (caught_up d w))
            (λ u. submit-Preserves _))
          (λ u. handle_connections-Preserves name_of game_id l a)
    handle_connections-Preserves name_of game_id ((stamp, client_disconnected d) ∷ l) a =
        bind-Preserves Inv _ _ (submit-Preserves _)
          (λ u. handle_connections-Preserves name_of game_id l a)

    pub tick-Preserves :
        (name_of : ℕ → String) (decode : Bytes → Option GameCommand) (game_id : GameId) (i : Inputs)
        → Connecting Welcome i.connections
        → Preserves ServerInv (tick any port net stamps name_of decode game_id i)
    unfolding tick
    tick-Preserves name_of decode game_id i a =
        bind-Preserves ServerInv
          (on_service (handle_connections any port net stamps name_of game_id i.connections)) _
          (record {
            apply = λ s h.
                (handle_connections-Preserves name_of game_id i.connections a).apply s.service h;
          })
          (λ u. drains-Preserves decode game_id i)
