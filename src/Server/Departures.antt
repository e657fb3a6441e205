-- ===== src/Server/Departures.antt =====
-- server/src/main.rs: `handle_connections` and a client that disconnects.
use tic_tac_tussle.Base.{ℕ, ◌≡◌, refl, ap, ◌∙◌, some, List, [], ◌∷◌, ◌++◌, ok, String, arith}
use tic_tac_tussle.State.{GameState, in_game, ended}
use tic_tac_tussle.Commands
use tic_tac_tussle.Commands.{Stamp, leave_game}
use tic_tac_tussle.Events.{GameEvent, EndGameReason, game_ended}
use tic_tac_tussle.Decider.{hydrate, decide}
use tic_tac_tussle.Decider.Branches.{decide-leave}
use tic_tac_tussle.Decider.History.{hydrate-append}
use tic_tac_tussle.Decider.Result.{result_state}
use tic_tac_tussle.Store.{events}
use tic_tac_tussle.Ports.{EventPublisher, NetworkBroadcaster, Anyhow}
use tic_tac_tussle.Service.{GameService, pure}
use tic_tac_tussle.Service.Preserves.{bind-Preserves, pure-Preserves}
use tic_tac_tussle.Service.Guarantees.{PublishReturns}
use tic_tac_tussle.Server.{
  ServerEvent, submit, client_disconnected, handle_connection, handle_connections,
}
use tic_tac_tussle.Server.Senders.{Logs, submit_accepted}

decide-leave_in_game :
    (s : GameState) (c : ℕ)
    → s.stage ≡ in_game
    → decide s (leave_game c)
      ≡ ok (GameEvent.player_left c ∷ game_ended (EndGameReason.player_left c) ∷ [])
decide-leave_in_game s c h = decide-leave s c ∙ ap ok (ground arith)

-- The state after a departure in a running game.
departed :
    (s : GameState) (c : ℕ)
    → s.stage ≡ in_game
    → result_state s (leave_game c) ≡ record s { stage = ended }
departed s c h = ground arith

module _ {E P N : Type 0} (any : Anyhow E) (port : EventPublisher E P)
    (net : NetworkBroadcaster E N) (stamps : ℕ → Stamp) (publishes : PublishReturns port) where
  -- When any client disconnects in a running game, whether it has a seat or not, the game is over:
  -- where the publisher returns, and whatever the network does, the log goes on with its departure
  -- and the end of the game, and hydrates to the state from before, with only its stage changed to
  -- the end.
  pub disconnect_ends_game :
      (name_of : ℕ → String) (c : ℕ) (stamp : Stamp) (g : GameService P N) (s : GameState)
      → hydrate (events g.store) ≡ some s
      → s.stage ≡ in_game
      → let connections : List (Stamp × ServerEvent) = (stamp, client_disconnected c) ∷ [] in
        let log =
          events
            (handle_connections any port net stamps name_of g.store.game_id connections
              g).1.store in
        (log
          ≡ events g.store
            ++ GameEvent.player_left c ∷ game_ended (EndGameReason.player_left c) ∷ [])
        × (hydrate log ≡ some (record s { stage = ended }))
  unfolding handle_connections handle_connection Commands.new
  disconnect_ends_game name_of c stamp g s h playing =
      let evs = GameEvent.player_left c ∷ game_ended (EndGameReason.player_left c) ∷ [] in
      let cmd = Commands.new stamp g.store.game_id (leave_game c) in
      let logs = Logs any port net stamps publishes (events g.store ++ evs) in
      let d = decide-leave_in_game s c playing in
      let grown : events
            (handle_connections any port net stamps name_of g.store.game_id
              ((stamp, client_disconnected c) ∷ []) g).1.store
          ≡ events g.store ++ evs =
        (bind-Preserves logs (submit any port net stamps cmd) (λ u. pure tt)
            (submit_accepted any port net stamps publishes cmd g.store s evs refl h d)
            (λ u. pure-Preserves logs)).apply
          g refl in
      (
        grown,
        ap hydrate grown
            ∙ (hydrate-append (events g.store) (leave_game c) h d ∙ ap some (departed s c playing)),
      )
