-- ===== src/Store.antt =====
-- store/src/store.rs: `EventStore`, the append-only log of one game. Every handle shares the
-- `Inner` behind one mutex, which each method holds from its start to its end, so the state is that
-- `Inner`, and a method is one step on it.
pub mod Log
use tic_tac_tussle.Base.{ℕ, Bool, Option, List, [], ◌∷◌, ◌++◌, map, length, ◌==◌}
use tic_tac_tussle.State.{Uuid, GameId}
use tic_tac_tussle.Commands.{Stamp}
use tic_tac_tussle.Events
use tic_tac_tussle.Events.{GameEvent, GameEventEnvelope}

pub record EventStore : Type 0 where
  pub game_id : GameId
  pub log : List GameEventEnvelope

-- `EventStore::new`
unfoldable pub new : GameId → EventStore
new game_id = record { game_id = game_id; log = [] }

-- `events`
unfoldable pub events : EventStore → List GameEvent
events s = map (λ e. e.event) s.log

-- `snapshot`
unfoldable pub snapshot : EventStore → List GameEventEnvelope
snapshot s = s.log

-- `len`
unfoldable pub len : EventStore → ℕ
len s = length s.log

-- `is_empty`
unfoldable pub is_empty : EventStore → Bool
unfolding len
is_empty s = len s == 0

-- `stamps n` is the uuid and the time that the envelope with sequence number `n` is created with:
-- each number is given out once.
module _ (stamps : ℕ → Stamp) where
  -- `append`. A `usize` fits a `u64`, so the cast keeps the length.
  unfoldable pub append : EventStore → GameEvent → Option Uuid → EventStore × GameEventEnvelope
  append s event command_id =
      let seq = length s.log in
      let gee = Events.new (stamps seq) s.game_id seq event command_id in
      (record s { log = s.log ++ gee ∷ [] }, gee)

  -- `append_batch`: the closure of its `map` does for each event what `append` does.
  unfoldable pub append_batch :
      EventStore → List GameEvent → Option Uuid → EventStore × List GameEventEnvelope
  unfolding append
  append_batch s [] command_id = (s, [])
  append_batch s (event ∷ rest) command_id =
      let (t, env) = append s event command_id in
      let (u, envs) = append_batch t rest command_id in (u, env ∷ envs)
