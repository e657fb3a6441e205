-- ===== src/Server/Echo.antt =====
-- server/src/main.rs: a command that the server has handled, and that the broker then hands back:
-- each client's command is published on the topic that the server itself consumes.
use tic_tac_tussle.Base.{ℕ, ◌≡◌, ◌≢◌, inl, inr, refl, sym, ap, subst, ◌∙◌, some, List, ok, err}
use tic_tac_tussle.State.{PlayerId, GameState}
use tic_tac_tussle.Commands.{Stamp, GameCommand, join_game, place_tile, leave_game}
use tic_tac_tussle.Events.{GameEvent}
use tic_tac_tussle.Errors.{TicTacTussleError}
use tic_tac_tussle.Decider.{hydrate, decide}
use tic_tac_tussle.Decider.Result.{result_state}
use tic_tac_tussle.Decider.Invariant.{IsValid}
use tic_tac_tussle.Decider.History.{hydrate-append, hydrate-IsValid}
use tic_tac_tussle.Decider.Redelivery.{Repeats, decide_again}
use tic_tac_tussle.Store.{events}
use tic_tac_tussle.Ports.{EventPublisher, NetworkBroadcaster, Anyhow}
use tic_tac_tussle.Service.{handle}
use tic_tac_tussle.Service.Handle.{IsGood}
use tic_tac_tussle.Service.Guarantees.{handle_accepted, handle-IsGood}
use tic_tac_tussle.Server.{BrokerCommand, Server, broker_command}
use tic_tac_tussle.Server.Acks.{broker_rejections}

-- A repeated join or move breaks a rule.
refused_again :
    (t : GameState) (c : GameCommand)
    → ((p : PlayerId) → c ≢ leave_game p)
    → Repeats t c
    → (e : TicTacTussleError) × (decide t c ≡ err e)
refused_again t (join_game p name) stays (inl e) = (_, e)
refused_again t (join_game p name) stays (inr e) = (_, e)
refused_again t (place_tile p at) stays (inl e) = (_, e)
refused_again t (place_tile p at) stays (inr e) = (_, e)
refused_again t (leave_game p) stays r = absurd (stays p refl)

module _ {E P N : Type 0} (any : Anyhow E) (port : EventPublisher E P)
    (net : NetworkBroadcaster E N) (stamps : ℕ → Stamp) where
  -- A join or a move that was accepted, and that the broker hands back next, is handled a second
  -- time without an effect, and its message is not acknowledged.
  pub echo_unacked :
      (s : Server P N) (b : BrokerCommand) (state : GameState) (evs : List GameEvent)
      → IsGood s.service.store
      → b.command_envelope.game_id ≡ s.service.store.game_id
      → hydrate (events s.service.store) ≡ some state
      → decide state b.command_envelope.command ≡ ok evs
      → ((p : PlayerId) → b.command_envelope.command ≢ leave_game p)
      → let t = record s {
        service = (handle any port net stamps b.command_envelope s.service).1;
      } in
        broker_command any port net stamps b t ≡ (ok tt, t)
  echo_unacked s b state evs good a h d stays =
      let t = record s { service = (handle any port net stamps b.command_envelope s.service).1 } in
      let cmd = b.command_envelope in
      let (u, k, valid) = hydrate-IsValid good.history in
      let v : IsValid state = let same : u ≡ state = cc in subst IsValid same valid in
      let (log, rest) = handle_accepted any port net stamps cmd s.service state evs a h d in
      let (good_after, same, more) = handle-IsGood any port net stamps cmd s.service good in
      let (e, refused) =
        refused_again (result_state state cmd.command) cmd.command stays
          (decide_again state cmd.command v d) in
      (broker_rejections any port net stamps b t).1 (result_state state cmd.command) e
        (a ∙ sym same) (ap hydrate log ∙ hydrate-append (events s.service.store) cmd.command h d)
        refused
