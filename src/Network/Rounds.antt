-- ===== src/Network/Rounds.antt =====
-- server/src/main.rs over server/src/adapters/renet.rs: a round of the game loop sends the clients
-- the log.
use tic_tac_tussle.Base.{ℕ, ◌≡◌, ◌≢◌, sym, subst, Option, List, [], ◌∷◌, Bytes, String}
use tic_tac_tussle.State.{GameId}
use tic_tac_tussle.Commands.{Stamp, CommandEnvelope, GameCommand}
use tic_tac_tussle.Events.{GameEvent}
use tic_tac_tussle.Service.{catch_up, publish, handle}
use tic_tac_tussle.Ports.{BrokerMessage, EventPublisher, NetworkBroadcaster, Anyhow}
use tic_tac_tussle.Service.{GameService}
use tic_tac_tussle.Service.Preserves.{Leads, Preserves, bind-Preserves, warn_on_err-Preserves}
use tic_tac_tussle.Service.Handle.{IsGood}
use tic_tac_tussle.Service.Guarantees.{PublishReturns, handle-IsGood}
use tic_tac_tussle.Server.{
  ServerEvent, client_connected, Inputs, Server, handle_connection, handle_connections, on_service,
  tick,
}
use tic_tac_tussle.Server.Steps.{
  Connecting, submit-Preserves, drains-Preserves, handle_connections-Preserves, tick-Preserves,
}
use tic_tac_tussle.Network.{Codec, Renet, renet_broadcaster}
use tic_tac_tussle.Network.Mirror.{Mirrors, catch_up-Mirrors, catch_up-other, handle-Mirrors}

-- The client does not connect in the round.
abbrev pub NotConnecting : ℕ → List (Stamp × ServerEvent) → Type 0
NotConnecting c l = Connecting (λ d. c ≢ d) l

module _ {E P N : Type 0} (any : Anyhow E) (codec : Codec E GameEvent) (renet : Renet N)
    (port : EventPublisher E P) (stamps : ℕ → Stamp) (c : ℕ) where
  abbrev net : NetworkBroadcaster E N
  net = renet_broadcaster any codec renet

  -- The store is good, and the client has been sent its log.
  abbrev pub IsInStep : GameService P N → Type 0
  IsInStep g = IsGood g.store × Mirrors any codec renet port stamps c g

  abbrev IsServerInStep : Server P N → Type 0
  IsServerInStep s = IsInStep s.service

  module _ (returns : PublishReturns port) where
    handle-IsInStep : (cmd : CommandEnvelope) → Preserves IsInStep (handle any port net stamps cmd)
    handle-IsInStep cmd = record {
      apply = λ g h. (
        (handle-IsGood any port net stamps cmd g h.0).0,
        handle-Mirrors any codec renet port stamps cmd g c returns h.0 h.1,
      );
    }

    publish-IsInStep : (msg : BrokerMessage) → Preserves IsInStep (publish any port net stamps msg)
    unfolding publish
    publish-IsInStep msg = record { apply = λ g h. h }

    catch_up-IsInStep : (d : ℕ) → c ≢ d → Preserves IsInStep (catch_up any port net stamps d)
    catch_up-IsInStep d ne = record {
      apply = λ g h.
          let (r, same, m) = catch_up-other any codec renet port stamps g c d ne h.1 in
          (subst IsGood (sym same) h.0, m);
    }

    -- A client that has been sent the log, and does not connect again, has been sent the log after
    -- the next round too, whatever else comes in.
    pub tick-IsInStep :
        (name_of : ℕ → String) (decode : Bytes → Option GameCommand) (game_id : GameId) (i : Inputs)
        (s : Server P N)
        → NotConnecting c i.connections
        → IsInStep s.service
        → IsInStep (tick any port net stamps name_of decode game_id i s).1.service
    tick-IsInStep name_of decode game_id i s a h =
        (tick-Preserves any port net stamps IsInStep publish-IsInStep handle-IsInStep (λ d. c ≢ d)
            catch_up-IsInStep name_of decode game_id i a).apply
          s h

    -- A client that connects in a round, ahead of any other, and to which nothing was sent before,
    -- has been sent the log after that round.
    pub tick_connects :
        (name_of : ℕ → String) (decode : Bytes → Option GameCommand) (game_id : GameId)
        (stamp : Stamp) (rest : List (Stamp × ServerEvent)) (i : Inputs) (s : Server P N)
        → i.connections ≡ (stamp, client_connected c) ∷ rest
        → NotConnecting c rest
        → renet.sent s.service.broadcaster c ≡ []
        → IsGood s.service.store
        → IsInStep (tick any port net stamps name_of decode game_id i s).1.service
    unfolding tick handle_connections handle_connection
    tick_connects name_of decode game_id stamp rest i s first a none_yet v =
        (bind-Preserves IsServerInStep
            {Pre = λ s. IsGood s.service.store × (renet.sent s.service.broadcaster c ≡ [])}
            (on_service (handle_connections any port net stamps name_of game_id i.connections)) _
            (record { apply = λ s h. rw first ((connects rest a).apply s.service h) })
            (λ u.
              drains-Preserves any port net stamps IsInStep publish-IsInStep handle-IsInStep decode
                game_id i)).apply
          s (v, none_yet)
      where
        connects :
            (rest : List (Stamp × ServerEvent))
            → NotConnecting c rest
            → Leads
                (λ g. IsGood g.store × (renet.sent g.broadcaster c ≡ []))
                IsInStep
                (handle_connections any port net stamps name_of game_id
                  ((stamp, client_connected c) ∷ rest))
        connects rest a =
            bind-Preserves IsInStep _ _
              (bind-Preserves IsInStep _ _
                (warn_on_err-Preserves IsInStep _ (record {
                  apply = λ g h.
                      let (r, same, m) = catch_up-Mirrors any codec renet port stamps g c h.1 in
                      (subst IsGood (sym same) h.0, m);
                }))
                (λ u.
                  submit-Preserves any port net stamps IsInStep publish-IsInStep handle-IsInStep _))
              (λ u.
                handle_connections-Preserves any port net stamps IsInStep publish-IsInStep
                  handle-IsInStep (λ d. c ≢ d) catch_up-IsInStep name_of game_id rest a)
