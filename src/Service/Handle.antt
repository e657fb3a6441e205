-- ===== src/Service/Handle.antt =====
-- server/src/game_service.rs: what `handle` does to the log, on every path through it.
use tic_tac_tussle.Base.{
  ℕ, ◌≡◌, ◌≢◌, refl, ==_iff, some, none, List, [], ◌∷◌, Outcome, ok, err, panic, arith, ℕ_discrete,
}
use tic_tac_tussle.State.{GameState}
use tic_tac_tussle.Commands.{Stamp, CommandEnvelope}
use tic_tac_tussle.Events.{GameEvent, GameEventEnvelope}
use tic_tac_tussle.Errors.{TicTacTussleError, wrong_game}
use tic_tac_tussle.Decider.{hydrate, decide}
use tic_tac_tussle.Decider.Branches.{decide_total}
use tic_tac_tussle.Decider.History.{IsHistory, accepted, hydrate-IsValid}
use tic_tac_tussle.Store.{EventStore, events, append_batch}
use tic_tac_tussle.Store.Log.{IsLog, append_batch-IsLog, events-append_batch}
use tic_tac_tussle.Ports.{
  BrokerMessage, event_batch, Action, EventPublisher, NetworkBroadcaster, Anyhow,
}
use tic_tac_tussle.Service.Monad.{GameService, ◌>>◌, warn_on_err}
use tic_tac_tussle.Service.{publish_raw, broadcast, broadcast_all, append_events, handle}

-- A store that a game can have: it is numbered, and its events are those of accepted commands.
pub record IsGood (s : EventStore) : Type 0 where
  pub numbered : IsLog s
  pub history : IsHistory (events s)

pub append_batch-IsGood :
    (stamps : ℕ → Stamp) (cmd : CommandEnvelope) (s : EventStore) {state : GameState}
    {evs : List GameEvent}
    → IsGood s
    → hydrate (events s) ≡ some state
    → decide state cmd.command ≡ ok evs
    → IsGood (append_batch stamps s evs (some cmd.id)).0
append_batch-IsGood stamps cmd s {evs = evs} v h d = record {
  numbered = (append_batch-IsLog stamps s evs (some cmd.id) v.numbered).0;
  history = accepted cmd.command v.history h d (events-append_batch stamps s evs (some cmd.id));
}

module _ {E P N : Type 0} (any : Anyhow E) (port : EventPublisher E P)
    (net : NetworkBroadcaster E N) (stamps : ℕ → Stamp) where
  -- The rest of `handle` once the new events are in the log.
  abbrev pub deliver :
      List GameEventEnvelope → List GameEvent → Action E (GameService P N) (Unit {0})
  deliver envelopes evs =
      warn_on_err (publish_raw any port net stamps (event_batch envelopes))
      >> broadcast_all any port net stamps evs

  broadcast_all-store :
      (evs : List GameEvent) (g : GameService P N)
      → ((broadcast_all any port net stamps evs g).1.store ≡ g.store)
        × ((broadcast_all any port net stamps evs g).1.publisher ≡ g.publisher)
  unfolding broadcast_all
  broadcast_all-store [] g = (refl, refl)
  broadcast_all-store (e ∷ evs) g =
      ground (arith, broadcast_all-store evs (broadcast any port net stamps e g).1)

  pub deliver-store :
      (envelopes : List GameEventEnvelope) (evs : List GameEvent) (g : GameService P N)
      → (deliver envelopes evs g).1.store ≡ g.store
  unfolding publish_raw
  deliver-store envelopes evs g = ground (
    arith,
    broadcast_all-store evs
        (record g { publisher = (port.publish (event_batch envelopes) g.publisher).1 }),
  )

  pub deliver-publisher :
      (envelopes : List GameEventEnvelope) (evs : List GameEvent) (g : GameService P N)
      → (deliver envelopes evs g).1.publisher ≡ (port.publish (event_batch envelopes) g.publisher).1
  unfolding publish_raw
  deliver-publisher envelopes evs g = ground (
    arith,
    broadcast_all-store evs
        (record g { publisher = (port.publish (event_batch envelopes) g.publisher).1 }),
  )

  broadcast_all-returns :
      ((e : GameEvent) (n : N) → (net.broadcast e n).0 ≢ panic)
      → (evs : List GameEvent) (g : GameService P N)
      → (broadcast_all any port net stamps evs g).0 ≢ panic
  unfolding broadcast_all
  broadcast_all-returns net_returns [] g = λ h. cc
  broadcast_all-returns net_returns (e ∷ evs) g = ground (
    arith,
    net_returns e g.broadcaster,
    broadcast_all-returns net_returns evs (broadcast any port net stamps e g).1,
  )

  -- The errors of a broadcast stand for no rule of the game.
  module _
      (plain : (e : GameEvent) (n : N) (x : E)
        → (net.broadcast e n).0 ≡ err x
        → any.downcast_ref x ≡ none) where
    broadcast_all-plain :
        (evs : List GameEvent) (g : GameService P N) (x : E)
        → (broadcast_all any port net stamps evs g).0 ≡ err x
        → any.downcast_ref x ≡ none
    unfolding broadcast_all
    broadcast_all-plain [] g x h = cc
    broadcast_all-plain (e ∷ evs) g x h = grind (
      arith,
      plain e g.broadcaster,
      any.downcast_ref-context "broadcast",
      broadcast_all-plain evs (broadcast any port net stamps e g).1 x,
    )

    pub deliver-plain :
        (envelopes : List GameEventEnvelope) (evs : List GameEvent) (g : GameService P N) (x : E)
        → (deliver envelopes evs g).0 ≡ err x
        → any.downcast_ref x ≡ none
    unfolding publish_raw
    deliver-plain envelopes evs g x h = ground (
      arith,
      broadcast_all-plain evs
          (record g { publisher = (port.publish (event_batch envelopes) g.publisher).1 }) x,
    )

  pub deliver-returns :
      ((msg : BrokerMessage) (p : P) → (port.publish msg p).0 ≢ panic)
      → ((e : GameEvent) (n : N) → (net.broadcast e n).0 ≢ panic)
      → (envelopes : List GameEventEnvelope) (evs : List GameEvent) (g : GameService P N)
      → (deliver envelopes evs g).0 ≢ panic
  unfolding publish_raw
  deliver-returns port_returns net_returns envelopes evs g = ground (
    arith,
    port_returns (event_batch envelopes) g.publisher,
    broadcast_all-returns net_returns evs
        (record g { publisher = (port.publish (event_batch envelopes) g.publisher).1 }),
  )

  module _ (cmd : CommandEnvelope) (g : GameService P N) where
    -- How a command fares: it is for another game, it breaks a rule, or its events are appended and
    -- then published and broadcast.
    pub data Handled (r : Outcome E (Unit {0}) × GameService P N) : Type 0 where
      misaddressed :
          cmd.game_id ≢ g.store.game_id
          → r ≡ (err (any.from_error (wrong_game cmd.game_id g.store.game_id)), g)
          → Handled r
      rejected :
          (s : GameState) (e : TicTacTussleError)
          → cmd.game_id ≡ g.store.game_id
          → hydrate (events g.store) ≡ some s
          → decide s cmd.command ≡ err e
          → r ≡ (err (any.from_text (any.to_string e)), g)
          → Handled r
      delivered :
          (s : GameState) (evs : List GameEvent)
          → cmd.game_id ≡ g.store.game_id
          → hydrate (events g.store) ≡ some s
          → decide s cmd.command ≡ ok evs
          → r ≡ (
              let (store, envelopes) = append_batch stamps g.store evs (some cmd.id) in
              deliver envelopes evs (record g { store = store }))
          → Handled r

    pub handle-misaddressed :
        cmd.game_id ≢ g.store.game_id
        → handle any port net stamps cmd g
          ≡ (err (any.from_error (wrong_game cmd.game_id g.store.game_id)), g)
    unfolding handle
    handle-misaddressed ne = ground arith

    pub handle-rejected :
        (s : GameState) (e : TicTacTussleError)
        → cmd.game_id ≡ g.store.game_id
        → hydrate (events g.store) ≡ some s
        → decide s cmd.command ≡ err e
        → handle any port net stamps cmd g ≡ (err (any.from_text (any.to_string e)), g)
    unfolding handle
    handle-rejected s e same h d = let t = (==_iff _ _).1 same in rw (t, h, d)

    pub handle-delivered :
        (s : GameState) (evs : List GameEvent)
        → cmd.game_id ≡ g.store.game_id
        → hydrate (events g.store) ≡ some s
        → decide s cmd.command ≡ ok evs
        → handle any port net stamps cmd g ≡ (
            let (store, envelopes) = append_batch stamps g.store evs (some cmd.id) in
            deliver envelopes evs (record g { store = store }))
    unfolding handle append_events
    handle-delivered s evs same h d = let t = (==_iff _ _).1 same in rw (t, h, d)

    -- Every call of `handle` on a good store takes one of three ways, and none of them panics before
    -- the ports are called.
    pub handle_cases : IsGood g.store → Handled (handle any port net stamps cmd g)
    handle_cases v =
        let (s, h, valid) = hydrate-IsValid v.history in
        elim (ℕ_discrete cmd.game_id g.store.game_id) [
          | no ne ↦ misaddressed ne (handle-misaddressed ne)
          | yes same ↦ go s h same (decide s cmd.command) refl
        ]
      where
        go :
            (s : GameState)
            → hydrate (events g.store) ≡ some s
            → cmd.game_id ≡ g.store.game_id
            → (r : Outcome TicTacTussleError (List GameEvent)) → decide s cmd.command ≡ r
            → Handled (handle any port net stamps cmd g)
        go s h same (ok evs) d = delivered s evs same h d (handle-delivered s evs same h d)
        go s h same (err e) d = rejected s e same h d (handle-rejected s e same h d)
        go s h same panic d = absurd (decide_total s cmd.command d)
