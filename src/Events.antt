-- ===== src/Events.antt =====
-- store/src/events.rs: what has happened in a game, and the envelope that the log stores.
pub mod Transfer
use tic_tac_tussle.Base.{ℕ, String, Option}
use tic_tac_tussle.State.{Uuid, PlayerId, GameId}
use tic_tac_tussle.Commands.{Stamp}

pub data EndGameReason : Type 0 where
  player_won : PlayerId → EndGameReason
  draw : EndGameReason
  player_left : PlayerId → EndGameReason

pub data GameEvent : Type 0 where
  player_joined : PlayerId → String → GameEvent
  game_started : PlayerId → GameEvent
  tile_placed : PlayerId → ℕ → GameEvent
  player_left : PlayerId → GameEvent
  game_ended : EndGameReason → GameEvent

pub record GameEventEnvelope : Type 0 where
  pub id : Uuid
  pub command_id : Option Uuid
  pub sequence : ℕ
  pub game_id : GameId
  pub occurred_at : ℕ
  pub event : GameEvent

-- `GameEventEnvelope::new`
unfoldable pub new : Stamp → GameId → ℕ → GameEvent → Option Uuid → GameEventEnvelope
new stamp game_id sequence event command_id = record {
  id = stamp.id;
  command_id = command_id;
  sequence = sequence;
  game_id = game_id;
  occurred_at = stamp.occurred_at;
  event = event;
}
