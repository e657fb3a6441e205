-- ===== src/Service.antt =====
-- server/src/game_service.rs: `GameService`, which takes a command through the decider, the log,
-- the broker and the network.
mod Monad
pub mod Builder
pub mod Preserves
pub mod Works
pub mod Handle
pub mod Guarantees
pub mod Play
pub use Monad.*
use tic_tac_tussle.Base.{
  ℕ, Bool, not, Option, none, some, List, [], ◌∷◌, Outcome, ok, err, panic, ◌==◌, String, or_panic,
}
use tic_tac_tussle.State.{GameId}
use tic_tac_tussle.Commands.{Stamp, CommandEnvelope}
use tic_tac_tussle.Events.{GameEvent, GameEventEnvelope}
use tic_tac_tussle.Errors.{wrong_game}
use tic_tac_tussle.Decider.{hydrate, decide}
use tic_tac_tussle.Store.{EventStore, events, snapshot, append_batch}
use tic_tac_tussle.Ports.{
  BrokerMessage, event_batch, Action, EventPublisher, NetworkBroadcaster, Anyhow,
}

module _ {E P N : Type 0} (any : Anyhow E) (port : EventPublisher E P)
    (net : NetworkBroadcaster E N) (stamps : ℕ → Stamp) where
  -- `self.publisher.publish(msg)`
  unfoldable pub publish_raw : BrokerMessage → Action E (GameService P N) (Unit {0})
  publish_raw msg g = let (r, p) = port.publish msg g.publisher in (r, record g { publisher = p })

  -- `self.broadcaster.broadcast(event).context("broadcast")?`
  unfoldable pub broadcast : GameEvent → Action E (GameService P N) (Unit {0})
  broadcast event g =
      let (r, n) = net.broadcast event g.broadcaster in
      (map_err (any.context "broadcast") r, record g { broadcaster = n })

  -- The loop over the new events, which the first failure ends.
  unfoldable pub broadcast_all : List GameEvent → Action E (GameService P N) (Unit {0})
  unfolding broadcast
  broadcast_all [] = pure tt
  broadcast_all (event ∷ rest) = do broadcast event; broadcast_all rest

  -- `self.store.append_batch(events, Some(id))`
  unfoldable pub append_events :
      List GameEvent → ℕ → Action E (GameService P N) (List GameEventEnvelope)
  append_events evs id g =
      let (store, envelopes) = append_batch stamps g.store evs (some id) in
      (ok envelopes, record g { store = store })

  -- `handle`
  unfoldable pub handle : CommandEnvelope → Action E (GameService P N) (Unit {0})
  unfolding publish_raw broadcast_all append_events
  handle cmd_env = do
    game_id ← gets (λ g. g.store.game_id)
    raise_if (not (cmd_env.game_id == game_id))
        (any.from_error (wrong_game cmd_env.game_id game_id))
    log ← gets (λ g. events g.store)
    state ← lift (or_panic (hydrate log))
    evs ← lift (map_err (λ e. any.from_text (any.to_string e)) (decide state cmd_env.command))
    envelopes ← append_events evs cmd_env.id
    warn_on_err (publish_raw (event_batch envelopes))
    broadcast_all evs

  -- `self.broadcaster.send_to(client_id, event).context("catch-up send_to")?`
  unfoldable pub send_to : ℕ → GameEvent → Action E (GameService P N) (Unit {0})
  send_to client_id event g =
      let (r, n) = net.send_to client_id event g.broadcaster in
      (map_err (any.context "catch-up send_to") r, record g { broadcaster = n })

  unfoldable pub send_all : ℕ → List GameEventEnvelope → Action E (GameService P N) (Unit {0})
  unfolding send_to
  send_all client_id [] = pure tt
  send_all client_id (env ∷ rest) = do send_to client_id env.event; send_all client_id rest

  -- `catch_up`
  unfoldable pub catch_up : ℕ → Action E (GameService P N) (Unit {0})
  unfolding send_all
  catch_up client_id = do log ← gets (λ g. snapshot g.store); send_all client_id log

  -- `publish`
  unfoldable pub publish : BrokerMessage → Action E (GameService P N) (Unit {0})
  unfolding publish_raw
  publish msg g = let (r, g') = publish_raw msg g in (map_err (any.context "publish") r, g')
