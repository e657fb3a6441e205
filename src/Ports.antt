-- ===== src/Ports.antt =====
-- store/src/ports.rs: what a game service asks of the broker and of the network, and the test
-- doubles. A trait is a record of operations over the implementation's own state; `anyhow::Error`
-- is the parameter `E`, with what the code relies on as the laws of `Anyhow`.
pub mod Doubles
use tic_tac_tussle.Base.{ℕ, ◌≡◌, String, Option, none, some, List, [], ◌∷◌, Outcome}
use tic_tac_tussle.State.{PlayerId}
use tic_tac_tussle.Commands.{CommandEnvelope}
use tic_tac_tussle.Events.{GameEvent, GameEventEnvelope}
use tic_tac_tussle.Errors.{TicTacTussleError}

pub data BrokerMessage : Type 0 where
  command : CommandEnvelope → BrokerMessage
  event_batch : List GameEventEnvelope → BrokerMessage

-- A call of a method: its outcome, and the state that it leaves behind.
abbrev pub Action : Type 0 → Type 0 → Type 0 → Type 0
Action E S A = S → Outcome E A × S

pub record EventPublisher (E P : Type 0) : Type 0 where
  pub publish : BrokerMessage → Action E P (Unit {0})

pub record NetworkBroadcaster (E N : Type 0) : Type 0 where
  pub broadcast : GameEvent → Action E N (Unit {0})
  pub send_to : ℕ → GameEvent → Action E N (Unit {0})

-- The error type of the crate `anyhow`, and the text that `thiserror` derives. `anyhow!(e)` keeps
-- the value `e`, `anyhow!("{e}")` only its text, and `context` hides no value.
pub record Anyhow (E : Type 0) : Type 0 where
  pub from_error : TicTacTussleError → E
  pub from_text : String → E
  pub context : String → E → E
  pub downcast_ref : E → Option TicTacTussleError
  pub to_string : TicTacTussleError → String
  pub downcast_ref-from_error : (e : TicTacTussleError) → downcast_ref (from_error e) ≡ some e
  pub downcast_ref-from_text : (t : String) → downcast_ref (from_text t) ≡ none
  pub downcast_ref-context : (t : String) (e : E) → downcast_ref (context t e) ≡ downcast_ref e
