-- ===== src/Server/Starting.antt =====
-- server/src/main.rs: two clients connect to a new server, and the game starts.
use tic_tac_tussle.Base.{
  ℕ, ◌≡◌, ◌≢◌, refl, sym, ap, subst, ◌∙◌, some, Option, List, [], ◌∷◌, ◌++◌, String, ok, panic,
  Bytes,
}
use tic_tac_tussle.State.{GameId, GameState, default}
use tic_tac_tussle.Commands
use tic_tac_tussle.Commands.{Stamp, CommandEnvelope, GameCommand, join_game}
use tic_tac_tussle.Events.{GameEvent, GameEventEnvelope}
use tic_tac_tussle.Decider.{hydrate, decide}
use tic_tac_tussle.Decider.History.{fresh}
use tic_tac_tussle.Decider.Opening.{
  one_joined, opening, alone, playing, hydrate-none, hydrate-one, hydrate-opening, first_joins,
  second_joins,
}
use tic_tac_tussle.Service.Works.{Works, bind-Works, warn_on_err-Works}
use tic_tac_tussle.Store.{events, snapshot}
use tic_tac_tussle.Ports.{command, EventPublisher, NetworkBroadcaster, Anyhow}
use tic_tac_tussle.Service.{
  GameService, pure, ◌>>◌, warn_on_err, handle, send_to, send_all, catch_up, publish, bind_returns,
}
use tic_tac_tussle.Service.Handle.{IsGood}
use tic_tac_tussle.Service.Guarantees.{
  map_err-returns, publish-returns, PublishReturns, BroadcastReturns, handle-IsGood,
  handle_accepted, handle_returns,
}
use tic_tac_tussle.Server.{
  client_connected, Server, submit, handle_connection, handle_connections, drain_client_commands,
  drain_broker_commands, on_service, tick,
}
use tic_tac_tussle.Server.Loop.{send_all-store}
use tic_tac_tussle.Server.Main.{Round, start, transport_update, send_packets, round, main_loop}

abbrev pub SendReturns : {E N : Type 0} → NetworkBroadcaster E N → Type 0
SendReturns {N} net = (c : ℕ) (e : GameEvent) (n : N) → (net.send_to c e n).0 ≢ panic

-- A round in which the transport works, and all that comes in is that a client connects.
abbrev pub IsArrival : {E N : Type 0} → ℕ → Round E N → Type 0
IsArrival {N = N} c r =
    ((n : N) → (r.update n).0 ≡ ok tt)
    × ((stamp : Stamp) × (r.inputs.connections ≡ (stamp, client_connected c) ∷ []))
    × (r.inputs.messages ≡ [])
    × (r.inputs.broker ≡ [])

-- The log is good, is that of the game, and holds these events.
abbrev pub Holds : {P N : Type 0} → GameId → List GameEvent → GameService P N → Type 0
Holds game_id l g = (events g.store ≡ l) × IsGood g.store × (g.store.game_id ≡ game_id)

pub Holds-store :
    {P N : Type 0} (game_id : GameId) (l : List GameEvent) (g h : GameService P N)
    → h.store ≡ g.store
    → Holds game_id l g
    → Holds game_id l h
Holds-store game_id l g h same holds =
    subst (λ t. (events t ≡ l) × IsGood t × (t.game_id ≡ game_id)) (sym same) holds

module _ {E P N : Type 0} (any : Anyhow E) (port : EventPublisher E P)
    (net : NetworkBroadcaster E N) (stamps : ℕ → Stamp) (publishes : PublishReturns port)
    (broadcasts : BroadcastReturns net) (sends : SendReturns net) where
  send_all-returns :
      (c : ℕ) (l : List GameEventEnvelope) (g : GameService P N)
      → (send_all any port net stamps c l g).0 ≢ panic
  unfolding send_all send_to
  send_all-returns c [] g = λ h. cc
  send_all-returns c (e ∷ l) g =
      bind_returns (send_to any port net stamps c e.event) (λ u. send_all any port net stamps c l) g
        (map_err-returns any "catch-up send_to" _ (sends c e.event g.broadcaster))
        (λ a t. send_all-returns c l t)

  pub catch_up-returns :
      (c : ℕ) (g : GameService P N) → (catch_up any port net stamps c g).0 ≢ panic
  unfolding catch_up
  catch_up-returns c g = send_all-returns c (snapshot g.store) g

  pub catch_up-store :
      (c : ℕ) (g : GameService P N) → (catch_up any port net stamps c g).1.store ≡ g.store
  unfolding catch_up
  catch_up-store c g = send_all-store any port net stamps c (snapshot g.store) g

  module _ (game_id : GameId) where
    -- A command that the decider accepts is in the log after `submit`.
    submit-Works :
        (stamp : Stamp) (c : GameCommand) (l evs : List GameEvent) (s : GameState)
        → hydrate l ≡ some s
        → decide s c ≡ ok evs
        → Works
            (Holds game_id l)
            (Holds game_id (l ++ evs))
            (submit any port net stamps (Commands.new stamp game_id c))
    unfolding submit Commands.new
    submit-Works stamp c l evs s h d =
        let cmd = Commands.new stamp game_id c in
        bind-Works {Mid = Holds game_id l} (warn_on_err (publish any port net stamps (command cmd)))
          (warn_on_err (handle any port net stamps cmd))
          (warn_on_err-Works (publish any port net stamps (command cmd)) λ g holds.
            let (returns, same) = publish-returns any port net stamps publishes (command cmd) g in
            (
              returns,
              Holds-store game_id l g (publish any port net stamps (command cmd) g).1 same holds,
            ))
          (warn_on_err-Works (handle any port net stamps cmd) λ g (log, good, same).
            let (kept, named, more) = handle-IsGood any port net stamps cmd g good in
            let k =
              handle_accepted any port net stamps cmd g s evs (sym same) (ap hydrate log ∙ h) d in
            (
              handle_returns any port net stamps cmd g good publishes broadcasts,
              (k.0 ∙ ap (λ t. t ++ evs) log, kept, named ∙ same),
            ))

    -- A client that connects is in the log once its join is accepted.
    connection-Works :
        (name_of : ℕ → String) (stamp : Stamp) (c : ℕ) (l evs : List GameEvent) (s : GameState)
        → hydrate l ≡ some s
        → decide s (join_game c (name_of c)) ≡ ok evs
        → Works
            (Holds game_id l)
            (Holds game_id (l ++ evs))
            (handle_connection any port net stamps name_of game_id (stamp, client_connected c))
    unfolding handle_connection
    connection-Works name_of stamp c l evs s h d =
        bind-Works {Mid = Holds game_id l} (warn_on_err (catch_up any port net stamps c))
          (submit any port net stamps (Commands.new stamp game_id (join_game c (name_of c))))
          (warn_on_err-Works (catch_up any port net stamps c) λ g holds. (
            catch_up-returns c g,
            Holds-store game_id l g (catch_up any port net stamps c g).1 (catch_up-store c g) holds,
          ))
          (submit-Works stamp (join_game c (name_of c)) l evs s h d)

    abbrev ServerHolds : List GameEvent → Server P N → Type 0
    ServerHolds l s = Holds game_id l s.service

    round-Works :
        (name_of : ℕ → String) (decode : Bytes → Option GameCommand) (r : Round E N) (c : ℕ)
        (l evs : List GameEvent) (s : GameState)
        → IsArrival c r
        → hydrate l ≡ some s
        → decide s (join_game c (name_of c)) ≡ ok evs
        → Works
            (ServerHolds l)
            (ServerHolds (l ++ evs))
            (round any port net stamps name_of decode game_id r)
    unfolding round tick handle_connections drain_client_commands drain_broker_commands
    round-Works name_of decode r c l evs s (updated, (stamp, one), quiet, idle) h d =
        bind-Works {Mid = ServerHolds l} (transport_update any port net stamps r) _
          (record { apply = λ s holds. (rw (updated s.service.broadcaster) refl, holds) })
          (bind-Works {Mid = ServerHolds (l ++ evs)}
            (tick any port net stamps name_of decode game_id r.inputs)
            (send_packets any port net stamps r)
            (rw (one, quiet, idle)
              (bind-Works {Mid = ServerHolds (l ++ evs)}
                (on_service (
                  handle_connection any port net stamps name_of game_id (stamp, client_connected c)
                  >> pure tt))
                (on_service (drain_client_commands any port net stamps decode game_id [])
                  >> drain_broker_commands any port net stamps [])
                (record {
                  apply = λ s holds.
                      (bind-Works {Mid = Holds game_id (l ++ evs)}
                          (handle_connection any port net stamps name_of game_id
                            (stamp, client_connected c))
                          (pure tt) (connection-Works name_of stamp c l evs _ h d)
                          (record { apply = λ g holds. (refl, holds) })).apply
                        s.service holds;
                })
                (record { apply = λ s holds. (refl, holds) })))
            (record { apply = λ s holds. (refl, holds) }))

    start-Holds :
        (publisher : P) (broadcaster : N) → ServerHolds [] (start publisher broadcaster game_id)
    unfolding start events
    start-Holds publisher broadcaster = (refl, record { numbered = tt; history = fresh }, refl)

    module _ (name_of : ℕ → String) (decode : Bytes → Option GameCommand) (p q : ℕ) (there : p ≢ 0)
        (here : q ≢ 0) (apart : p ≢ q) where
      -- Two different clients, neither of them with the id 0, that connect to a new server in
      -- rounds of their own, start the game: the loop goes on, the log holds the joins in the order
      -- and with the names of the clients and the start, and in the state that it hydrates to the
      -- game is in play, and the first to connect has X and the first move.
      pub main_loop_starts :
          (publisher : P) (broadcaster : N) (r s : Round E N)
          → IsArrival p r
          → IsArrival q s
          → let (run, after) =
              main_loop any port net stamps name_of decode game_id
                (r ∷ s ∷ [])
                (start publisher broadcaster game_id) in
            (run ≡ ok tt)
            × (events after.service.store ≡ (opening p q (name_of p) (name_of q)))
            × (hydrate (opening p q (name_of p) (name_of q)) ≡ some (playing p q))
      unfolding main_loop
      main_loop_starts publisher broadcaster r s first second =
          let (run, (log, good, same)) =
            (bind-Works {Mid = ServerHolds (one_joined p (name_of p))}
                (round any port net stamps name_of decode game_id r)
                (round any port net stamps name_of decode game_id s >> pure tt)
                (round-Works name_of decode r p [] (one_joined p (name_of p)) default first
                  hydrate-none (first_joins p q (name_of p) (name_of q) there))
                (bind-Works {Mid = ServerHolds (opening p q (name_of p) (name_of q))}
                  (round any port net stamps name_of decode game_id s) (pure tt)
                  (round-Works name_of decode s q (one_joined p (name_of p)) _ (alone p) second
                    (hydrate-one p q (name_of p) (name_of q) there)
                    (second_joins p q (name_of p) (name_of q) there here apart))
                  (record { apply = λ s holds. (refl, holds) }))).apply
              (start publisher broadcaster game_id) (start-Holds publisher broadcaster) in
          (run, log, hydrate-opening p q (name_of p) (name_of q) there here)
