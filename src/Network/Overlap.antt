-- ===== src/Network/Overlap.antt =====
-- server/src/main.rs over server/src/adapters/renet.rs: two clients that connect in one round. The
-- transport has connected both before the first of them is handled.
use tic_tac_tussle.Base.{
  ℕ, ◌≡◌, ◌≢◌, refl, sym, ap, subst, ◌∙◌, some, none, List, [], ◌∷◌, ◌++◌, map, String, ok,
}
use tic_tac_tussle.State.{GameId, GameState, default}
use tic_tac_tussle.Commands
use tic_tac_tussle.Commands.{Stamp, GameCommand, join_game}
use tic_tac_tussle.Events.{GameEvent, player_joined}
use tic_tac_tussle.Decider.{hydrate, decide}
use tic_tac_tussle.Client.{Client, update_pair}
use tic_tac_tussle.Store.{events, snapshot, append_batch}
use tic_tac_tussle.Ports.{command, EventPublisher, NetworkBroadcaster, Anyhow}
use tic_tac_tussle.Service.{
  GameService, pure, ◌>>◌, warn_on_err, handle, catch_up, publish, publish_raw,
}
use tic_tac_tussle.Service.Handle.{handle-delivered}
use tic_tac_tussle.Service.Guarantees.{
  publish-returns, PublishReturns, BroadcastReturns, handle-IsGood, handle_accepted, handle_returns,
}
use tic_tac_tussle.Server.{client_connected, submit, handle_connection, handle_connections}
use tic_tac_tussle.Service.Works.{Works, bind-Works, warn_on_err-Works}
use tic_tac_tussle.Decider.Opening.{
  second_join, alone, hydrate-none, hydrate-one, first_joins, second_joins,
}
use tic_tac_tussle.Server.Starting.{SendReturns, Holds, Holds-store}
use tic_tac_tussle.Network.{Codec, Renet, renet_broadcaster, renet_broadcast, renet_send_to}
use tic_tac_tussle.Network.Sending.{HasSent}
use tic_tac_tussle.Network.Mirror.{send_all-Sent, send_all-other, deliver-HasSent}

module _ {E P N : Type 0} (any : Anyhow E) (codec : Codec E GameEvent) (renet : Renet N)
    (port : EventPublisher E P) (stamps : ℕ → Stamp) (publishes : PublishReturns port) (q : ℕ)
    (game_id : GameId) where
  abbrev net : NetworkBroadcaster E N
  net = renet_broadcaster any codec renet

  broadcasts : BroadcastReturns net
  unfolding renet_broadcast
  broadcasts e n = let (b, run, back) = codec.round_trip e in rw run (λ h. cc)

  sends : SendReturns net
  unfolding renet_send_to
  sends c e n = let (b, run, back) = codec.round_trip e in rw run (λ h. cc)

  -- The log holds the events `l`, and `q` has been sent the events `k`.
  abbrev pub Both : List GameEvent → List GameEvent → GameService P N → Type 0
  Both l k g = Holds game_id l g × HasSent any codec renet g.broadcaster q k

  -- A catch-up sends the whole log, whatever was sent before.
  catch_up_self :
      (l k : List GameEvent)
      → Works (Both l k) (Both l (k ++ l)) (warn_on_err (catch_up any port net stamps q))
  unfolding catch_up snapshot events
  catch_up_self l k = warn_on_err-Works (catch_up any port net stamps q) λ g (holds, sent).
      let (run, same, more) = send_all-Sent any codec renet port stamps g.store.log g q k sent in
      (
        λ h. cc,
        (
          Holds-store game_id l g (catch_up any port net stamps q g).1 same holds,
          subst
              (λ r.
                HasSent any codec renet (catch_up any port net stamps q g).1.broadcaster q (k ++ r))
              holds.0 more,
        ),
      )

  -- The catch-up of another client sends this one nothing.
  catch_up_another :
      (d : ℕ) (l k : List GameEvent)
      → q ≢ d
      → Works (Both l k) (Both l k) (warn_on_err (catch_up any port net stamps d))
  unfolding catch_up snapshot
  catch_up_another d l k ne = warn_on_err-Works (catch_up any port net stamps d) λ g (holds, sent).
      let (run, same, more) =
        send_all-other any codec renet port stamps g.store.log g q d k ne sent in
      (λ h. cc, (Holds-store game_id l g (catch_up any port net stamps d g).1 same holds, more))

  -- An accepted command adds its events to the log and to what the client has been sent.
  submit-Both :
      (stamp : Stamp) (c : GameCommand) (l k evs : List GameEvent) (s : GameState)
      → hydrate l ≡ some s
      → decide s c ≡ ok evs
      → Works
          (Both l k)
          (Both (l ++ evs) (k ++ evs))
          (submit any port net stamps (Commands.new stamp game_id c))
  unfolding submit Commands.new publish publish_raw
  submit-Both stamp c l k evs s h d =
      let cmd = Commands.new stamp game_id c in
      bind-Works {Mid = Both l k} (warn_on_err (publish any port net stamps (command cmd)))
        (warn_on_err (handle any port net stamps cmd))
        (warn_on_err-Works (publish any port net stamps (command cmd)) λ g (holds, sent).
          let (returns, same) = publish-returns any port net stamps publishes (command cmd) g in
          (
            returns,
            (
              Holds-store game_id l g (publish any port net stamps (command cmd) g).1 same holds,
              sent,
            ),
          ))
        (warn_on_err-Works (handle any port net stamps cmd) λ g ((log, good, same), sent).
          let (kept, named, more) = handle-IsGood any port net stamps cmd g good in
          let a =
            handle_accepted any port net stamps cmd g s evs (sym same) (ap hydrate log ∙ h) d in
          let (store, envelopes) = append_batch stamps g.store evs (some cmd.id) in
          (
            handle_returns any port net stamps cmd g good publishes broadcasts,
            (
              (a.0 ∙ ap (λ t. t ++ evs) log, kept, named ∙ same),
              rw
                  (handle-delivered any port net stamps cmd g s evs (sym same) (ap hydrate log ∙ h)
                    d)
                  (deliver-HasSent any codec renet port stamps publishes envelopes evs
                    (record g { store = store }) q k sent),
            ),
          ))

  module _ (name_of : ℕ → String) (p : ℕ) (there : p ≢ 0) (here : q ≢ 0) (apart : p ≢ q) where
    abbrev first_join : GameEvent
    first_join = player_joined p (name_of p)

    abbrev rest : List GameEvent
    rest = second_join p q (name_of q)

    connections-Works :
        (a b : Stamp)
        → Works (Both [] []) (Both (first_join ∷ rest) (first_join ∷ first_join ∷ rest)) (
            handle_connections any port net stamps name_of game_id
              ((a, client_connected p) ∷ (b, client_connected q) ∷ []))
    unfolding handle_connections handle_connection
    connections-Works a b =
        bind-Works {Mid = Both (first_join ∷ []) (first_join ∷ [])}
          (handle_connection any port net stamps name_of game_id (a, client_connected p))
          (handle_connection any port net stamps name_of game_id (b, client_connected q) >> pure tt)
          (bind-Works {Mid = Both [] []} (warn_on_err (catch_up any port net stamps p))
            (submit any port net stamps (Commands.new a game_id (join_game p (name_of p))))
            (catch_up_another p [] [] (λ h. apart (sym h)))
            (submit-Both a (join_game p (name_of p)) [] [] (first_join ∷ []) default hydrate-none
              (first_joins p q (name_of p) (name_of q) there)))
          (bind-Works {Mid = Both (first_join ∷ rest) (first_join ∷ first_join ∷ rest)}
            (handle_connection any port net stamps name_of game_id (b, client_connected q))
            (pure tt)
            (bind-Works {Mid = Both (first_join ∷ []) (first_join ∷ first_join ∷ [])}
              (warn_on_err (catch_up any port net stamps q))
              (submit any port net stamps (Commands.new b game_id (join_game q (name_of q))))
              (catch_up_self (first_join ∷ []) (first_join ∷ []))
              (submit-Both b (join_game q (name_of q)) (first_join ∷ [])
                (first_join ∷ first_join ∷ []) rest (alone p)
                (hydrate-one p q (name_of p) (name_of q) there)
                (second_joins p q (name_of p) (name_of q) there here apart)))
            (record { apply = λ g h. (refl, h) }))

    -- Where two different clients, neither of them with the id 0, connect to a new game in
    -- one round, where the publisher returns, the second client, with nothing sent to it
    -- before and as long as it stays connected, is sent the first join twice, while the log
    -- holds it once; and a client that has received the events sent to the second, with no
    -- pair before, finds none.
    pub overlap_lem :
        (g : GameService P N) (a b : Stamp) (c : Client)
        → Holds game_id [] g
        → renet.sent g.broadcaster q ≡ []
        → c.maybe_pair ≡ none
        → let (run, after) =
            handle_connections any port net stamps name_of game_id
              ((a, client_connected p) ∷ (b, client_connected q) ∷ [])
              g in
          (run ≡ ok tt)
          × (events after.store ≡ first_join ∷ rest)
          × HasSent any codec renet after.broadcaster q (first_join ∷ first_join ∷ rest)
          × ((update_pair
                (record c { received_events = first_join ∷ first_join ∷ rest })).maybe_pair
              ≡ none)
    unfolding update_pair
    overlap_lem g a b c empty unsent unpaired =
        let (run, (holds, sent)) =
          (connections-Works a b).apply g (empty, λ on. ap (map codec.decode_from_slice) unsent) in
        (run, holds.0, sent, rw unpaired refl)
