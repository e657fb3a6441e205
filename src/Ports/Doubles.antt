-- ===== src/Ports/Doubles.antt =====
-- store/src/ports.rs: the publishers and the broadcaster that the tests use.
use tic_tac_tussle.Base.{Bool, true, false, List, [], ◌∷◌, ◌++◌, ok}
use tic_tac_tussle.Commands.{CommandEnvelope}
use tic_tac_tussle.Events.{GameEventEnvelope}
use tic_tac_tussle.Ports.{
  BrokerMessage, command, event_batch, Action, EventPublisher, NetworkBroadcaster,
}

-- `CapturingPublisher`: what was published, by its two kinds.
pub record Captured : Type 0 where
  pub published : List GameEventEnvelope
  pub commands : List CommandEnvelope

module _ {E : Type 0} where
  unfoldable pub capture : BrokerMessage → Action E Captured (Unit {0})
  capture (command cmd) p = (ok tt, record p { commands = p.commands ++ cmd ∷ [] })
  capture (event_batch envelopes) p = (ok tt, record p { published = p.published ++ envelopes })

  -- `impl EventPublisher for CapturingPublisher`
  abbrev pub capturing_publisher : EventPublisher E Captured
  capturing_publisher = record { publish = capture }

  -- `impl EventPublisher for NoopPublisher`
  abbrev pub noop_publisher : EventPublisher E (Unit {0})
  noop_publisher = record { publish = λ msg p. (ok tt, p) }

  -- `impl NetworkBroadcaster for NoopBroadcaster`
  abbrev pub noop_broadcaster : NetworkBroadcaster E (Unit {0})
  noop_broadcaster = record {
    broadcast = λ event n. (ok tt, n);
    send_to = λ client_id event n. (ok tt, n);
  }

-- `AckHandle`: a closure, by what it does to the state it captures.
pub record AckHandle (S : Type 0) : Type 0 where
  pub closure : S → S

-- `AckHandle::new`
unfoldable pub new_handle : {S : Type 0} → (S → S) → AckHandle S
new_handle f = record { closure = f }

-- `AckHandle::ack`
unfoldable pub ack : {S : Type 0} → AckHandle S → S → S
ack handle = handle.closure

-- `test_ack`: the handle, and the flag that it sets.
unfoldable pub test_ack : AckHandle Bool × Bool
unfolding new_handle
test_ack = (new_handle (λ flag. true), false)
