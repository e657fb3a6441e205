-- ===== src/Network/Mirror.antt =====
-- server/src/game_service.rs over server/src/adapters/renet.rs: what `handle` and `catch_up` send to
-- a client is the log.
use tic_tac_tussle.Base.{
  ℕ, ◌≡◌, ◌≢◌, refl, sym, ap, subst, some, List, [], ◌∷◌, ◌++◌, map, append-nil, append_assoc,
  Outcome, ok, arith,
}
use tic_tac_tussle.Commands.{Stamp, CommandEnvelope}
use tic_tac_tussle.Events.{GameEvent, GameEventEnvelope}
use tic_tac_tussle.Store.{EventStore, events, snapshot, append_batch}
use tic_tac_tussle.Store.Log.{events-append_batch}
use tic_tac_tussle.Ports.{event_batch, EventPublisher, NetworkBroadcaster, Anyhow}
use tic_tac_tussle.Service.{
  GameService, publish_raw, broadcast, broadcast_all, handle, send_to, send_all, catch_up, bind_ok,
  map_err,
}
use tic_tac_tussle.Service.Handle.{
  IsGood, Handled, misaddressed, rejected, delivered, handle_cases, deliver, deliver-store,
}
use tic_tac_tussle.Service.Guarantees.{PublishReturns}
use tic_tac_tussle.Network.{Codec, Renet, renet_broadcaster}
use tic_tac_tussle.Network.Sending.{
  HasSent, renet_broadcast-HasSent, renet_send_to-HasSent, renet_send_to-other,
}

module _ {E N : Type 0} (any : Anyhow E) (codec : Codec E GameEvent) (renet : Renet N) where
  module _ {P : Type 0} (port : EventPublisher E P) (stamps : ℕ → Stamp) where
    abbrev net : NetworkBroadcaster E N
    net = renet_broadcaster any codec renet

    -- A call succeeded, and the client has been sent these events.
    abbrev pub Sent :
        ℕ → EventStore → List GameEvent → Outcome E (Unit {0}) × GameService P N → Type 0
    Sent c store evs r =
        (r.0 ≡ ok tt) × (r.1.store ≡ store) × HasSent any codec renet r.1.broadcaster c evs

    broadcast-Sent :
        (e : GameEvent) (g : GameService P N) (c : ℕ) (old : List GameEvent)
        → HasSent any codec renet g.broadcaster c old
        → Sent c g.store (old ++ e ∷ []) (broadcast any port net stamps e g)
    unfolding broadcast
    broadcast-Sent e g c old h =
        let (run, sent) = renet_broadcast-HasSent any codec renet e g.broadcaster c old h in
        (ap (map_err (any.context "broadcast")) run, refl, sent)

    send_to-Sent :
        (e : GameEvent) (g : GameService P N) (c : ℕ) (old : List GameEvent)
        → HasSent any codec renet g.broadcaster c old
        → Sent c g.store (old ++ e ∷ []) (send_to any port net stamps c e g)
    unfolding send_to
    send_to-Sent e g c old h =
        let (run, sent) = renet_send_to-HasSent any codec renet e g.broadcaster c old h in
        (ap (map_err (any.context "catch-up send_to")) run, refl, sent)

    send_to-other :
        (e : GameEvent) (g : GameService P N) (c d : ℕ) (old : List GameEvent)
        → c ≢ d
        → HasSent any codec renet g.broadcaster c old
        → Sent c g.store old (send_to any port net stamps d e g)
    unfolding send_to
    send_to-other e g c d old ne h =
        let (run, sent) = renet_send_to-other any codec renet e g.broadcaster c d old ne h in
        (ap (map_err (any.context "catch-up send_to")) run, refl, sent)

    broadcast_all-Sent :
        (evs : List GameEvent) (g : GameService P N) (c : ℕ) (old : List GameEvent)
        → HasSent any codec renet g.broadcaster c old
        → Sent c g.store (old ++ evs) (broadcast_all any port net stamps evs g)
    unfolding broadcast_all
    broadcast_all-Sent [] g c old h = (refl, refl, rw (append-nil old) h)
    broadcast_all-Sent (e ∷ evs) g c old h =
        let (run, same, sent) = broadcast-Sent e g c old h in
        let g' = (broadcast any port net stamps e g).1 in
        rw
          (
            bind_ok (broadcast any port net stamps e) (λ _. broadcast_all any port net stamps evs) g
                run,
            ← same,
          )
          (subst (λ l. Sent c g'.store l (broadcast_all any port net stamps evs g'))
            (append_assoc old (e ∷ []) evs) (broadcast_all-Sent evs g' c (old ++ e ∷ []) sent))

    pub send_all-Sent :
        (l : List GameEventEnvelope) (g : GameService P N) (c : ℕ) (old : List GameEvent)
        → HasSent any codec renet g.broadcaster c old
        → Sent c g.store (old ++ map (λ e. e.event) l) (send_all any port net stamps c l g)
    unfolding send_all
    send_all-Sent [] g c old h = (refl, refl, rw (append-nil old) h)
    send_all-Sent (e ∷ l) g c old h =
        let (run, same, sent) = send_to-Sent e.event g c old h in
        let g' = (send_to any port net stamps c e.event g).1 in
        rw
          (
            bind_ok (send_to any port net stamps c e.event) (λ _. send_all any port net stamps c l)
                g run,
            ← same,
          )
          (subst (λ k. Sent c g'.store k (send_all any port net stamps c l g'))
            (append_assoc old (e.event ∷ []) (map (λ e. e.event) l))
            (send_all-Sent l g' c (old ++ e.event ∷ []) sent))

    pub send_all-other :
        (l : List GameEventEnvelope) (g : GameService P N) (c d : ℕ) (old : List GameEvent)
        → c ≢ d
        → HasSent any codec renet g.broadcaster c old
        → Sent c g.store old (send_all any port net stamps d l g)
    unfolding send_all
    send_all-other [] g c d old ne h = (refl, refl, h)
    send_all-other (e ∷ l) g c d old ne h =
        let (run, same, sent) = send_to-other e.event g c d old ne h in
        let g' = (send_to any port net stamps d e.event g).1 in
        rw
          (
            bind_ok (send_to any port net stamps d e.event) (λ _. send_all any port net stamps d l)
                g run,
            ← same,
          )
          (send_all-other l g' c d old ne sent)

    -- A client that is still connected has been sent the log.
    abbrev pub Mirrors : ℕ → GameService P N → Type 0
    Mirrors c g = HasSent any codec renet g.broadcaster c (events g.store)

    -- A client that has been sent nothing has the whole log after its catch-up, which succeeds.
    pub catch_up-Mirrors :
        (g : GameService P N) (c : ℕ)
        → renet.sent g.broadcaster c ≡ []
        → let (r, after) = catch_up any port net stamps c g in
          (r ≡ ok tt) × (after.store ≡ g.store) × Mirrors c after
    unfolding catch_up snapshot events
    catch_up-Mirrors g c h =
        let (run, same, sent) =
          send_all-Sent g.store.log g c [] (λ on. ap (map codec.decode_from_slice) h) in
        (
          run,
          same,
          subst
              (λ s.
                HasSent any codec renet (catch_up any port net stamps c g).1.broadcaster c
                  (events s))
              (sym same) sent,
        )

    pub catch_up-other :
        (g : GameService P N) (c d : ℕ)
        → c ≢ d
        → Mirrors c g
        → let (r, after) = catch_up any port net stamps d g in
          (r ≡ ok tt) × (after.store ≡ g.store) × Mirrors c after
    unfolding catch_up snapshot
    catch_up-other g c d ne h =
        let (run, same, sent) = send_all-other g.store.log g c d (events g.store) ne h in
        (
          run,
          same,
          subst
              (λ s.
                HasSent any codec renet (catch_up any port net stamps d g).1.broadcaster c
                  (events s))
              (sym same) sent,
        )

    pub deliver-HasSent :
        PublishReturns port
        → (envelopes : List GameEventEnvelope) (evs : List GameEvent) (g : GameService P N) (c : ℕ)
          (old : List GameEvent)
        → HasSent any codec renet g.broadcaster c old
        → HasSent any codec renet
            (deliver any port net stamps envelopes evs g).1.broadcaster
            c
            (old ++ evs)
    unfolding publish_raw
    deliver-HasSent returns envelopes evs g c old h =
        let p = port.publish (event_batch envelopes) g.publisher in
        let (r, same, sent) = broadcast_all-Sent evs (record g { publisher = p.1 }) c old h in
        ground (arith, returns (event_batch envelopes) g.publisher)

    -- Whatever comes of a command, a client that has been sent the log before has been sent it
    -- afterwards, where the publisher returns.
    pub handle-Mirrors :
        (cmd : CommandEnvelope) (g : GameService P N) (c : ℕ)
        → PublishReturns port
        → IsGood g.store
        → Mirrors c g
        → Mirrors c (handle any port net stamps cmd g).1
    handle-Mirrors cmd g c returns v h = go (handle_cases any port net stamps cmd g v)
      where
        go :
            {r : Outcome E (Unit {0}) × GameService P N}
            → Handled any port net stamps cmd g r
            → Mirrors c r.1
        go (misaddressed ne q) = rw q h
        go (rejected s e a t d q) = rw q h
        go (delivered s evs a t d q) =
            let (store, envelopes) = append_batch stamps g.store evs (some cmd.id) in
            let g' = record g { store = store } in
            rw
              (
                q,
                deliver-store any port net stamps envelopes evs g',
                events-append_batch stamps g.store evs (some cmd.id),
              )
              (deliver-HasSent returns envelopes evs g' c (events g.store) h)
