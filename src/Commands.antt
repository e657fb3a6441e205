-- ===== src/Commands.antt =====
-- store/src/commands.rs: what a player asks for, and the envelope that carries it.
use tic_tac_tussle.Base.{ℕ, String}
use tic_tac_tussle.State.{Uuid, PlayerId, GameId}

pub data GameCommand : Type 0 where
  join_game : PlayerId → String → GameCommand
  place_tile : PlayerId → ℕ → GameCommand
  leave_game : PlayerId → GameCommand

-- What `Uuid::new_v4()` and `Utc::now()` gave for one envelope.
pub record Stamp : Type 0 where
  pub id : Uuid
  pub occurred_at : ℕ

pub record CommandEnvelope : Type 0 where
  pub id : Uuid
  pub game_id : GameId
  pub occurred_at : ℕ
  pub command : GameCommand

-- `CommandEnvelope::new`
unfoldable pub new : Stamp → GameId → GameCommand → CommandEnvelope
new stamp game_id command = record {
  id = stamp.id;
  game_id = game_id;
  occurred_at = stamp.occurred_at;
  command = command;
}
