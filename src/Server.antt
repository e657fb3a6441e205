-- ===== src/Server.antt =====
-- server/src/main.rs: the steps of the game loop over what the transport, the clients and the broker
-- hand in. Each envelope that the loop creates comes with its own stamp.
pub mod Steps
pub mod Loop
pub mod Acks
pub mod Echo
pub mod Main
pub mod Runs
pub mod Starting
pub mod Senders
pub mod Departures
use tic_tac_tussle.Base.{
  ℕ, suc, map, Bool, Option, none, some, List, [], ◌∷◌, ◌++◌, Outcome, ok, err, panic, String,
  Bytes, is_some, true, false, if◌then◌else◌,
}
use tic_tac_tussle.State.{GameId, PlayerId}
use tic_tac_tussle.Commands
use tic_tac_tussle.Commands.{Stamp, CommandEnvelope, GameCommand, join_game, leave_game}
use tic_tac_tussle.Ports.{command, Action, EventPublisher, NetworkBroadcaster, Anyhow}
use tic_tac_tussle.Service.{GameService, pure, ◌>>=◌, ◌>>◌, warn_on_err, handle, catch_up, publish}

-- `renet::ServerEvent`, with the reason of a disconnection left out: it is only logged.
pub data ServerEvent : Type 0 where
  client_connected : ℕ → ServerEvent
  client_disconnected : ℕ → ServerEvent

-- `BrokerCommand`: the acknowledgement handle is known by the message that it stands for.
pub record BrokerCommand : Type 0 where
  pub command_envelope : CommandEnvelope
  pub ack : ℕ

-- What one round of the loop takes in: the server events, the clients' messages in the order in
-- which they are read, and what the channel from the broker holds until it is empty or closed.
pub record Inputs : Type 0 where
  pub connections : List (Stamp × ServerEvent)
  pub messages : List (Stamp × Bytes)
  pub broker : List BrokerCommand

-- The service, and the messages that were acknowledged.
pub record Server (P N : Type 0) : Type 0 where
  pub service : GameService P N
  pub acked : List ℕ

-- The messages that `drain_client_commands` collects: client after client, each with its sender, until
-- nothing is left for that client.
unfoldable pub client_messages : List ℕ → (ℕ → List Bytes) → List (ℕ × Bytes)
client_messages [] inbox = []
client_messages (id ∷ ids) inbox = map (λ b. (id, b)) (inbox id) ++ client_messages ids inbox

-- The messages with the stamps of the envelopes that they come to; the sender is only logged.
abbrev pub with_stamps : (ℕ → Stamp) → ℕ → List (ℕ × Bytes) → List (Stamp × Bytes)
with_stamps clock n [] = []
with_stamps clock n ((cid, raw) ∷ rest) = (clock n, raw) ∷ with_stamps clock (suc n) rest

-- Whether a command from the broker is acknowledged, by how `handle` ended.
abbrev pub acks : {E : Type 0} → Anyhow E → Outcome E (Unit {0}) → Bool
acks any (ok a) = true
acks any (err e) = is_some (any.downcast_ref e)
acks any panic = false

-- The arms of the `match` on the result of `handle` in `drain_broker_commands`.
unfoldable pub settle :
    {E P N : Type 0}
    → Anyhow E
    → BrokerCommand
    → Server P N
    → Outcome E (Unit {0}) × GameService P N
    → Outcome E (Unit {0}) × Server P N
settle any b s (r, service) =
    let t = record s {
      service = service;
      acked = if acks any r then s.acked ++ b.ack ∷ [] else s.acked;
    } in
    elim r [ panic ↦ (panic, t) | _ ↦ (ok tt, t) ]

-- A step on the service is a step on the server.
abbrev pub on_service :
    {E P N : Type 0} → Action E (GameService P N) (Unit {0}) → Action E (Server P N) (Unit {0})
on_service m s = let (r, service) = m s.service in (r, record s { service = service })

module _ {E P N : Type 0} (any : Anyhow E) (port : EventPublisher E P)
    (net : NetworkBroadcaster E N) (stamps : ℕ → Stamp) where
  -- A command of this server: it is published, and handled whether or not that worked.
  unfoldable pub submit : CommandEnvelope → Action E (GameService P N) (Unit {0})
  submit cmd_env = do
    warn_on_err (publish any port net stamps (command cmd_env))
    warn_on_err (handle any port net stamps cmd_env)

  -- One event of `handle_connections`; `name_of` is the name in the client's user data, or the
  -- one made from its id.
  unfoldable pub handle_connection :
      (ℕ → String) → GameId → Stamp × ServerEvent → Action E (GameService P N) (Unit {0})
  unfolding submit
  handle_connection name_of game_id (stamp, client_connected client_id) = do
    warn_on_err (catch_up any port net stamps client_id)
    submit (Commands.new stamp game_id (join_game client_id (name_of client_id)))
  handle_connection name_of game_id (stamp, client_disconnected client_id) =
      submit (Commands.new stamp game_id (leave_game client_id))

  -- `handle_connections`
  unfoldable pub handle_connections :
      (ℕ → String) → GameId → List (Stamp × ServerEvent) → Action E (GameService P N) (Unit {0})
  unfolding handle_connection
  handle_connections name_of game_id [] = pure tt
  handle_connections name_of game_id (ev ∷ rest) = do
    handle_connection name_of game_id ev
    handle_connections name_of game_id rest

  -- The arms of the `match` on the decoded message.
  unfoldable pub on_decoded :
      GameId → Stamp → Option GameCommand → Action E (GameService P N) (Unit {0})
  unfolding submit
  on_decoded game_id stamp (some cmd) = submit (Commands.new stamp game_id cmd)
  on_decoded game_id stamp none = pure tt

  -- One message of `drain_client_commands`; `decode` is `decode_from_slice::<GameCommand>`.
  unfoldable pub client_command :
      (Bytes → Option GameCommand) → GameId → Stamp × Bytes → Action E (GameService P N) (Unit {0})
  unfolding on_decoded
  client_command decode game_id (stamp, raw) = on_decoded game_id stamp (decode raw)

  -- `drain_client_commands`
  unfoldable pub drain_client_commands :
      (Bytes → Option GameCommand)
      → GameId
      → List (Stamp × Bytes)
      → Action E (GameService P N) (Unit {0})
  unfolding client_command
  drain_client_commands decode game_id [] = pure tt
  drain_client_commands decode game_id (m ∷ rest) = do
    client_command decode game_id m
    drain_client_commands decode game_id rest

  -- One command of `drain_broker_commands`.
  unfoldable pub broker_command : BrokerCommand → Action E (Server P N) (Unit {0})
  unfolding settle
  broker_command b s = settle any b s (handle any port net stamps b.command_envelope s.service)

  -- `drain_broker_commands`
  unfoldable pub drain_broker_commands : List BrokerCommand → Action E (Server P N) (Unit {0})
  unfolding broker_command
  drain_broker_commands [] = pure tt
  drain_broker_commands (b ∷ rest) = do broker_command b; drain_broker_commands rest

  -- One round of the loop in `main`, between the two calls of the transport.
  unfoldable pub tick :
      (ℕ → String)
      → (Bytes → Option GameCommand)
      → GameId
      → Inputs
      → Action E (Server P N) (Unit {0})
  unfolding handle_connections drain_client_commands drain_broker_commands
  tick name_of decode game_id i = do
    on_service (handle_connections name_of game_id i.connections)
    on_service (drain_client_commands decode game_id i.messages)
    drain_broker_commands i.broker
