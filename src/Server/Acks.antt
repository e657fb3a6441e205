-- ===== src/Server/Acks.antt =====
-- server/src/main.rs: which broker messages are acknowledged.
use tic_tac_tussle.Base.{
  ℕ, ◌≡◌, ◌≢◌, refl, sym, ap, ◌∙◌, false, some, none, List, [], ◌∷◌, ◌++◌, Outcome, ok, err, panic,
  arith, if◌then◌else◌,
}
use tic_tac_tussle.State.{GameState}
use tic_tac_tussle.Commands.{Stamp}
use tic_tac_tussle.Events.{GameEvent}
use tic_tac_tussle.Errors.{TicTacTussleError, wrong_game}
use tic_tac_tussle.Decider.{hydrate, decide}
use tic_tac_tussle.Store.{events, append_batch}
use tic_tac_tussle.Ports.{EventPublisher, NetworkBroadcaster, Anyhow}
use tic_tac_tussle.Service.{GameService, handle}
use tic_tac_tussle.Service.Handle.{
  handle-misaddressed, handle-rejected, handle-delivered, deliver-plain,
}
use tic_tac_tussle.Service.Guarantees.{handle_accepted}
use tic_tac_tussle.Server.{BrokerCommand, Server, acks, settle, broker_command}

module _ {E P N : Type 0} (any : Anyhow E) (b : BrokerCommand) (s : Server P N) where
  pub settle-service :
      (r : Outcome E (Unit {0}) × GameService P N) → (settle any b s r).1.service ≡ r.1
  unfolding settle
  settle-service (ok a, g) = refl
  settle-service (err e, g) = refl
  settle-service (panic, g) = refl

  pub settle-acked :
      (r : Outcome E (Unit {0}) × GameService P N)
      → (settle any b s r).1.acked ≡ (if acks any r.0 then s.acked ++ b.ack ∷ [] else s.acked)
  unfolding settle
  settle-acked (ok a, g) = refl
  settle-acked (err e, g) = refl
  settle-acked (panic, g) = refl

  acks-plain :
      (r : Outcome E (Unit {0}))
      → ((x : E) → r ≡ err x → any.downcast_ref x ≡ none)
      → r ≢ ok tt
      → acks any r ≡ false
  acks-plain (ok a) plain bad = absurd (bad refl)
  acks-plain (err x) plain bad = rw (plain x refl)
  acks-plain panic plain bad = refl

module _ {E P N : Type 0} (any : Anyhow E) (port : EventPublisher E P)
    (net : NetworkBroadcaster E N) (stamps : ℕ → Stamp) (b : BrokerCommand) (s : Server P N) where
  -- A message whose command breaks a rule of the game is not acknowledged, and changes nothing at
  -- all; the one rejection that is acknowledged is that of a command for another game.
  pub broker_rejections :
      (b.command_envelope.game_id ≢ s.service.store.game_id
        → broker_command any port net stamps b s
          ≡ (ok tt, record s { acked = s.acked ++ b.ack ∷ [] }))
      × ((state : GameState) (e : TicTacTussleError)
          → b.command_envelope.game_id ≡ s.service.store.game_id
          → hydrate (events s.service.store) ≡ some state
          → decide state b.command_envelope.command ≡ err e
          → broker_command any port net stamps b s ≡ (ok tt, s))
  unfolding broker_command settle
  broker_rejections = (
    λ ne.
        ap (settle any b s) (handle-misaddressed any port net stamps cmd s.service ne)
        ∙ ground
            (arith, any.downcast_ref-from_error (wrong_game cmd.game_id s.service.store.game_id)),
    λ state e a h d.
        ap (settle any b s) (handle-rejected any port net stamps cmd s.service state e a h d)
        ∙ ground (arith, any.downcast_ref-from_text (any.to_string e)),
  )
    where
      open b use {command_envelope as cmd}

  -- A command that is accepted is in the log after its turn, also where the network failed. Where
  -- the network's own errors hold no `TicTacTussleError`, it is acknowledged exactly when `handle`
  -- succeeded, and otherwise the acknowledgements are as before.
  pub broker_accepted :
      (state : GameState) (evs : List GameEvent)
      → ((e : GameEvent) (n : N) (x : E)
          → (net.broadcast e n).0 ≡ err x
          → any.downcast_ref x ≡ none)
      → b.command_envelope.game_id ≡ s.service.store.game_id
      → hydrate (events s.service.store) ≡ some state
      → decide state b.command_envelope.command ≡ ok evs
      → let after = (broker_command any port net stamps b s).1 in
        let r = (handle any port net stamps b.command_envelope s.service).0 in
        (events after.service.store ≡ events s.service.store ++ evs)
        × ((r ≡ ok tt) → after.acked ≡ s.acked ++ b.ack ∷ [])
        × ((r ≢ ok tt) → after.acked ≡ s.acked)
  unfolding broker_command settle
  broker_accepted state evs plain a h d =
      let k = handle_accepted any port net stamps b.command_envelope s.service state evs a h d in
      let q = handle-delivered any port net stamps b.command_envelope s.service state evs a h d in
      let (store, envelopes) =
        append_batch stamps s.service.store evs (some b.command_envelope.id) in
      let plain_error =
        deliver-plain any port net stamps plain envelopes evs
          (record s.service { store = store }) in
      let run = handle any port net stamps b.command_envelope s.service in
      (
        ap (λ t. events t.store) (settle-service any b s run) ∙ k.0,
        λ good. settle-acked any b s run ∙ rw good,
        λ bad.
            settle-acked any b s run
            ∙ rw (acks-plain any b s run.0 (λ x e. plain_error x (sym (ap (λ t. t.0) q) ∙ e)) bad),
      )
