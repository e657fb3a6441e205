-- ===== src/Redpanda/Publishing.antt =====
-- server/src/adapters/redpanda.rs: the publisher meets what the game service asks of one.
use tic_tac_tussle.Base.{◌≢◌, refl, List, [], ◌∷◌, Bytes, String, Outcome, ok, err, panic}
use tic_tac_tussle.Commands.{CommandEnvelope}
use tic_tac_tussle.Events.{GameEventEnvelope}
use tic_tac_tussle.Ports.{command, event_batch, Anyhow}
use tic_tac_tussle.Service.Guarantees.{PublishReturns}
use tic_tac_tussle.Service.{bind_returns, map_err}
use tic_tac_tussle.Redpanda.{
  Kafka, send_payload, publish_events, redpanda_publish, redpanda_publisher,
}

module _ {E P : Type 0} (any : Anyhow E) (kafka : Kafka E P)
    (event_returns : (env : GameEventEnvelope) → kafka.event_json env ≢ panic)
    (command_returns : (cmd : CommandEnvelope) → kafka.command_json cmd ≢ panic) where
  send_payload-returns :
      (topic key text : String) (r : Outcome E Bytes) (p : P)
      → r ≢ panic
      → (send_payload any kafka topic key (map_err (any.context text) r) p).0 ≢ panic
  send_payload-returns topic key text (ok payload) p h = λ q. cc
  send_payload-returns topic key text (err e) p h = λ q. cc
  send_payload-returns topic key text panic p h = absurd (h refl)

  publish_events-returns :
      (l : List GameEventEnvelope) (p : P) → (publish_events any kafka l p).0 ≢ panic
  unfolding publish_events
  publish_events-returns [] p = λ h. cc
  publish_events-returns (env ∷ l) p =
      bind_returns
        (send_payload any kafka kafka.events_topic (kafka.event_key env)
          (map_err (any.context "serialise envelope to JSON") (kafka.event_json env)))
        (λ _. publish_events any kafka l) p
        (send_payload-returns kafka.events_topic (kafka.event_key env) "serialise envelope to JSON"
          (kafka.event_json env) p (event_returns env))
        (λ a t. publish_events-returns l t)

  -- The publisher returns where the serialisation does, whatever becomes of the deliveries.
  pub redpanda_publisher-PublishReturns : PublishReturns (redpanda_publisher any kafka)
  unfolding redpanda_publish
  redpanda_publisher-PublishReturns (command cmd) p =
      send_payload-returns kafka.commands_topic (kafka.command_key cmd) "serialise command to JSON"
        (kafka.command_json cmd) p (command_returns cmd)
  redpanda_publisher-PublishReturns (event_batch l) p = publish_events-returns l p
