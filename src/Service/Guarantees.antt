-- ===== src/Service/Guarantees.antt =====
-- server/src/game_service.rs: what holds of every call of `handle`, whatever the broker and the
-- network do.
use tic_tac_tussle.Base.{
  ℕ, String, ◌≡◌, ◌≢◌, refl, sym, ap, some, none, List, [], ◌++◌, append-nil, Outcome, ok, err,
  panic,
}
use tic_tac_tussle.State.{GameState}
use tic_tac_tussle.Commands.{Stamp, CommandEnvelope}
use tic_tac_tussle.Events.{GameEvent, GameEventEnvelope}
use tic_tac_tussle.Errors.{TicTacTussleError, wrong_game}
use tic_tac_tussle.Decider.{hydrate, decide}
use tic_tac_tussle.Store.{EventStore, events, append_batch}
use tic_tac_tussle.Store.Log.{From, append_batch_lem, events-append_batch}
use tic_tac_tussle.Ports.{BrokerMessage, event_batch, EventPublisher, NetworkBroadcaster, Anyhow}
use tic_tac_tussle.Service.Monad.{GameService, map_err}
use tic_tac_tussle.Service.{handle, publish, publish_raw}
use tic_tac_tussle.Service.Handle.{
  IsGood, append_batch-IsGood, deliver-store, Handled, misaddressed, rejected, delivered,
  handle_cases, handle-misaddressed, handle-rejected, handle-delivered, deliver-publisher,
  deliver-returns,
}

-- The port's methods return, with or without an error.
abbrev pub PublishReturns : {E P : Type 0} → EventPublisher E P → Type 0
PublishReturns {P} port = (msg : BrokerMessage) (p : P) → (port.publish msg p).0 ≢ panic

abbrev pub BroadcastReturns : {E N : Type 0} → NetworkBroadcaster E N → Type 0
BroadcastReturns {N} net = (e : GameEvent) (n : N) → (net.broadcast e n).0 ≢ panic

-- A context makes no panic of a call that returns.
pub map_err-returns :
    {E A : Type 0} (any : Anyhow E) (t : String) (r : Outcome E A)
    → r ≢ panic
    → map_err (any.context t) r ≢ panic
map_err-returns any t (ok a) h = λ k. cc
map_err-returns any t (err e) h = λ k. cc
map_err-returns any t panic h = absurd (h refl)

module _ {E P N : Type 0} (any : Anyhow E) (port : EventPublisher E P)
    (net : NetworkBroadcaster E N) (stamps : ℕ → Stamp) where
  -- A good store stays good, for the same game, and its log is only appended to, on every path
  -- through `handle`, also where the broker or the network fails or panics.
  pub handle-IsGood :
      (cmd : CommandEnvelope) (g : GameService P N)
      → IsGood g.store
      → let after = (handle any port net stamps cmd g).1.store in
        IsGood after
        × (after.game_id ≡ g.store.game_id)
        × ((new : List GameEventEnvelope) × (after.log ≡ g.store.log ++ new))
  handle-IsGood cmd g v = go (handle_cases any port net stamps cmd g v)
    where
      Kept : EventStore → Type 0
      Kept t =
          IsGood t
          × (t.game_id ≡ g.store.game_id)
          × ((new : List GameEventEnvelope) × (t.log ≡ g.store.log ++ new))

      same : Kept g.store
      same = (v, refl, ([], sym (append-nil g.store.log)))

      go :
          {r : Outcome E (Unit {0}) × GameService P N}
          → Handled any port net stamps cmd g r
          → Kept r.1.store
      go (misaddressed ne q) = rw q same
      go (rejected s e a h d q) = rw q same
      go (delivered s evs a h d q) =
          let (store, envelopes) = append_batch stamps g.store evs (some cmd.id) in
          let k = append_batch_lem stamps g.store evs (some cmd.id) in
          rw (q, deliver-store any port net stamps envelopes evs (record g { store = store }))
            (append_batch-IsGood stamps cmd g.store v h d, k.1, (envelopes, k.0))

  -- A command for another game and one that breaks a rule change nothing, neither the log nor what
  -- the ports have seen. But only the first error still holds its `TicTacTussleError`: from the
  -- error of a broken rule no `downcast_ref` gets it back.
  pub handle_refusals :
      (cmd : CommandEnvelope) (g : GameService P N)
      → (cmd.game_id ≢ g.store.game_id
          → let (r, after) = handle any port net stamps cmd g in
            (after ≡ g)
            × ((x : E) × (r ≡ err x)
                × (any.downcast_ref x ≡ some (wrong_game cmd.game_id g.store.game_id))))
        × ((s : GameState) (e : TicTacTussleError)
            → cmd.game_id ≡ g.store.game_id
            → hydrate (events g.store) ≡ some s
            → decide s cmd.command ≡ err e
            → let (r, after) = handle any port net stamps cmd g in
              (after ≡ g) × ((x : E) × (r ≡ err x) × (any.downcast_ref x ≡ none)))
  handle_refusals cmd g = (
    λ ne.
        let q = handle-misaddressed any port net stamps cmd g ne in
        (ap (λ t. t.1) q, (_, ap (λ t. t.0) q, any.downcast_ref-from_error _)),
    λ s e a h d.
        let q = handle-rejected any port net stamps cmd g s e a h d in
        (ap (λ t. t.1) q, (_, ap (λ t. t.0) q, any.downcast_ref-from_text _)),
  )

  -- The events of an accepted command are in the log whatever the ports do, in one batch at its end
  -- that names the command, and the broker is given exactly that batch.
  pub handle_accepted :
      (cmd : CommandEnvelope) (g : GameService P N) (s : GameState) (evs : List GameEvent)
      → cmd.game_id ≡ g.store.game_id
      → hydrate (events g.store) ≡ some s
      → decide s cmd.command ≡ ok evs
      → let after = (handle any port net stamps cmd g).1 in
        (events after.store ≡ events g.store ++ evs)
        × ((new : List GameEventEnvelope) × (after.store.log ≡ g.store.log ++ new)
            × From (some cmd.id) new
            × (after.publisher ≡ (port.publish (event_batch new) g.publisher).1))
  handle_accepted cmd g s evs a h d =
      let (store, envelopes) = append_batch stamps g.store evs (some cmd.id) in
      let k = append_batch_lem stamps g.store evs (some cmd.id) in
      let g' = record g { store = store } in
      rw
        (
          handle-delivered any port net stamps cmd g s evs a h d,
          deliver-store any port net stamps envelopes evs g',
        )
        (
          events-append_batch stamps g.store evs (some cmd.id),
          (envelopes, k.0, k.4, deliver-publisher any port net stamps envelopes evs g'),
        )

  -- On a good store `handle` returns: it panics only where a port does.
  pub handle_returns :
      (cmd : CommandEnvelope) (g : GameService P N)
      → IsGood g.store
      → PublishReturns port
      → BroadcastReturns net
      → (handle any port net stamps cmd g).0 ≢ panic
  handle_returns cmd g v port_returns net_returns = go (handle_cases any port net stamps cmd g v)
    where
      go :
          {r : Outcome E (Unit {0}) × GameService P N}
          → Handled any port net stamps cmd g r
          → r.0 ≢ panic
      go (misaddressed ne q) = rw q (λ h. cc)
      go (rejected s e a h d q) = rw q (λ h. cc)
      go (delivered s evs a h d q) =
          rw q (deliver-returns any port net stamps port_returns net_returns _ evs _)

  -- `publish` leaves the store alone.
  pub publish-returns :
      (publishes : PublishReturns port) (msg : BrokerMessage) (g : GameService P N)
      → ((publish any port net stamps msg g).0 ≢ panic)
        × ((publish any port net stamps msg g).1.store ≡ g.store)
  unfolding publish publish_raw
  publish-returns publishes msg g =
      (map_err-returns any "publish" _ (publishes msg g.publisher), refl)
