-- ===== src/Redpanda.antt =====
-- server/src/adapters/redpanda.rs: `RedpandaPublisher::publish` and `consumer_loop`. The producer, the
-- serialisation and the broker are parameters.
pub mod Publishing
pub mod Consuming
pub mod Delivery
pub mod Groups
pub mod Setup
use tic_tac_tussle.Base.{
  ℕ, Bool, not, true, false, ◌||◌, Option, none, some, List, [], ◌∷◌, ◌++◌, String, Bytes, Outcome,
  ok, err, panic, ◌==◌, if◌then◌else◌,
}
use tic_tac_tussle.Commands.{CommandEnvelope}
use tic_tac_tussle.Events.{GameEventEnvelope}
use tic_tac_tussle.Ports.{BrokerMessage, command, event_batch, Action, EventPublisher, Anyhow}
use tic_tac_tussle.Service.{pure, ◌>>=◌, ◌>>◌, map_err}

-- What `publish` uses: the topics of the configuration, `serde_json::to_vec` and the printed keys, and
-- the producer, whose `send` tells whether the record was delivered.
pub record Kafka (E P : Type 0) : Type 0 where
  pub events_topic : String
  pub commands_topic : String
  pub event_json : GameEventEnvelope → Outcome E Bytes
  pub command_json : CommandEnvelope → Outcome E Bytes
  pub event_key : GameEventEnvelope → String
  pub command_key : CommandEnvelope → String
  pub send : String → String → Bytes → P → Bool × P

module _ {E P : Type 0} (any : Anyhow E) (kafka : Kafka E P) where
  -- A record is sent once its payload is there; a failed delivery is only logged.
  abbrev pub send_payload : String → String → Outcome E Bytes → Action E P (Unit {0})
  send_payload topic key (ok payload) p = (ok tt, (kafka.send topic key payload p).1)
  send_payload topic key (err e) p = (err e, p)
  send_payload topic key panic p = (panic, p)

  unfoldable pub publish_events : List GameEventEnvelope → Action E P (Unit {0})
  publish_events [] = pure tt
  publish_events (env ∷ rest) = do
    send_payload kafka.events_topic (kafka.event_key env)
        (map_err (any.context "serialise envelope to JSON") (kafka.event_json env))
    publish_events rest

  -- `RedpandaPublisher::publish`
  unfoldable pub redpanda_publish : BrokerMessage → Action E P (Unit {0})
  unfolding publish_events
  redpanda_publish (event_batch envelopes) = publish_events envelopes
  redpanda_publish (command cmd_env) =
      send_payload kafka.commands_topic (kafka.command_key cmd_env)
        (map_err (any.context "serialise command to JSON") (kafka.command_json cmd_env))

  -- `impl EventPublisher for RedpandaPublisher`
  abbrev pub redpanda_publisher : EventPublisher E P
  redpanda_publisher = record { publish = redpanda_publish }

-- `u8::is_ascii_whitespace`
abbrev pub is_ascii_whitespace : ℕ → Bool
is_ascii_whitespace b = b == 32 || b == 9 || b == 10 || b == 12 || b == 13

-- The payload from its first byte that is no whitespace, if there is one.
unfoldable pub skip_whitespace : Bytes → Option Bytes
skip_whitespace [] = none
skip_whitespace (b ∷ l) =
    let rest = skip_whitespace l in if not (is_ascii_whitespace b) then some (b ∷ l) else rest

unfoldable pub trimmed : Bytes → Bytes
unfolding skip_whitespace
trimmed payload = elim (skip_whitespace payload) [ some l ↦ l | none ↦ payload ]

-- `trimmed.starts_with(b"{") || trimmed.starts_with(b"[")`
abbrev pub is_json : Bytes → Bool
is_json [] = false
is_json (b ∷ l) = b == 123 || b == 91

-- `cmd_res`; `from_slice` is `serde_json::from_slice::<CommandEnvelope>`.
unfoldable pub decode_command : (Bytes → Option CommandEnvelope) → Bytes → Option CommandEnvelope
unfolding trimmed
decode_command from_slice payload =
    let text = trimmed payload in if is_json text then from_slice text else none

-- How the wait for the acknowledgement ends.
pub data Reply : Type 0 where
  acknowledged dropped timed_out : Reply

-- What `recv` gives: a message with its offset and payload, and how the game loop replies to it if it
-- is handed on, or an error. `is_open` tells whether the game loop still receives.
pub data Received : Type 0 where
  message : ℕ → Option Bytes → Bool → Reply → Received
  failure : Received

-- The commands handed to the game loop, the offsets committed, and whether the loop goes on.
pub record Consumer : Type 0 where
  pub forwarded : List (ℕ × CommandEnvelope)
  pub committed : List ℕ
  pub running : Bool

-- The wait for the reply.
abbrev pub await : ℕ → Reply → Consumer → Consumer
await offset acknowledged c = record c { committed = c.committed ++ offset ∷ [] }
await offset dropped c = c
await offset timed_out c = c

-- A command that was decoded: it is handed on, or the game loop has gone.
abbrev pub forward : ℕ → CommandEnvelope → Bool → Reply → Consumer → Consumer
forward offset cmd false reply c = record c { running = false }
forward offset cmd true reply c =
    await offset reply (record c { forwarded = c.forwarded ++ (offset, cmd) ∷ [] })

-- One turn of the loop.
unfoldable pub consume : (Bytes → Option CommandEnvelope) → Received → Consumer → Consumer
unfolding decode_command
consume from_slice failure c = c
consume from_slice (message offset none is_open reply) c = c
consume from_slice (message offset (some payload) is_open reply) c =
    elim (decode_command from_slice payload) [
      | some cmd ↦ forward offset cmd is_open reply c
      | none ↦ c
    ]

-- `consumer_loop`, over what is received, until the game loop has gone.
unfoldable pub consumer_loop :
    (Bytes → Option CommandEnvelope) → List Received → Consumer → Consumer
unfolding consume
consumer_loop from_slice [] c = c
consumer_loop from_slice (r ∷ rest) c =
    let d = consume from_slice r c in
    let after = consumer_loop from_slice rest d in if d.running then after else d
