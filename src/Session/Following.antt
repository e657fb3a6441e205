-- ===== src/Session/Following.antt =====
-- server/src/main.rs and client/src/main.rs: the client of a session follows the server's log.
use tic_tac_tussle.Base.{
  ℕ, ◌≡◌, refl, ap, sym, subst, ◌∙◌, inl, inr, true, Option, Option-cases, some, List, [], ◌∷◌,
  ◌++◌, Bytes, String, map, map-append, append_assoc, append-nil,
}
use tic_tac_tussle.State.{GameId, GameState, default}
use tic_tac_tussle.Commands.{Stamp, GameCommand}
use tic_tac_tussle.Events.{GameEvent, GameEventEnvelope}
use tic_tac_tussle.Decider.{fold_events, hydrate}
use tic_tac_tussle.Decider.History.{hydrate-IsValid, fold_events-prefix}
use tic_tac_tussle.Store.{EventStore, events}
use tic_tac_tussle.Ports.{EventPublisher, Anyhow}
use tic_tac_tussle.Service.Guarantees.{PublishReturns}
use tic_tac_tussle.Server.Runs.{main_loop-GoesOn}
use tic_tac_tussle.Network.{Codec, Renet, renet_broadcaster}
use tic_tac_tussle.Network.Rounds.{IsInStep}
use tic_tac_tussle.Network.Sessions.{main_loop-IsInStep}
use tic_tac_tussle.Client.{Client, receive_server_events}
use tic_tac_tussle.Client.Replay.{map-some-append, after, receive_lem}
use tic_tac_tussle.Client.Screen.{Float}
use tic_tac_tussle.Client.Display.{Palette}
use tic_tac_tussle.Client.Frame.{App, run_systems, on_client, frame}
use tic_tac_tussle.Client.Frame.Keeps.{KnowsPair, HasReplayed, update_systems-HasReplayed}
use tic_tac_tussle.Session.{World, Step, rounds, client_frame, Reach, start, step, IsBeginning}

-- Two lists that together are of events are each of events.
split-map-some :
    (p q : List (Option GameEvent)) (l : List GameEvent)
    → p ++ q ≡ map some l
    → (a : List GameEvent) × (b : List GameEvent) × (l ≡ a ++ b)
      × (p ≡ map some a)
      × (q ≡ map some b)
split-map-some [] q l h = ([], l, refl, refl, h)
split-map-some (x ∷ p) q [] h = cc
split-map-some (x ∷ p) q (e ∷ l) h =
    let (a, b, s, k, j) = split-map-some p q l cc in
    let same : x ≡ some e = cc in (e ∷ a, b, ap (◌∷◌ e) s, cc, j)

pub append_cancel : (l a b : List GameEvent) → l ++ a ≡ l ++ b → a ≡ b
append_cancel [] a b h = h
append_cancel (e ∷ l) a b h = append_cancel l a b cc

module _ {E P N F K : Type 0} (any : Anyhow E) (codec : Codec E GameEvent) (renet : Renet N)
    (port : EventPublisher E P) (stamps : ℕ → Stamp) (returns : PublishReturns port)
    (name_of : ℕ → String) (decode : Bytes → Option GameCommand) (game_id : GameId)
    (float : Float F) (palette : Palette F K) (commands : Codec E GameCommand) (username : String)
    (id : ℕ) where
  -- The client has replayed what it received, which is the beginning of the server's log.
  pub record IsFollowing (w : World P N F K) : Type 0 where
    pub in_step : IsInStep any codec renet port stamps id w.server.service
    pub behind : List GameEvent
    pub log : events w.server.service.store ≡ (w.app.client).received_events ++ behind
    pub read : map codec.decode_from_slice w.taken ≡ map some (w.app.client).received_events
    pub shown : hydrate (w.app.client).received_events ≡ some (w.app.client).state
    pub pair : KnowsPair (w.app.client).received_events w.app.client

  pub beginning-IsFollowing :
      (w : World P N F K)
      → IsBeginning any codec renet port stamps name_of decode game_id float palette commands
          username id w
      → IsFollowing w
  unfolding hydrate fold_events
  beginning-IsFollowing w b = record {
    in_step = b.in_step;
    behind = events w.server.service.store;
    log = rw b.nothing_received refl;
    read = rw (b.nothing_taken, b.nothing_received) refl;
    shown = rw (b.nothing_received, b.first_state) refl;
    pair = inl b.no_pair;
  }

  rounds-IsFollowing :
      (w v : World P N F K)
      → IsFollowing w
      → v.app ≡ w.app
      → v.taken ≡ w.taken
      → IsInStep any codec renet port stamps id v.server.service
      → ((new : List GameEvent) × (events v.server.service.store
            ≡ events w.server.service.store ++ new))
      → IsFollowing v
  rounds-IsFollowing w v f same_app same_taken in_step (new, grown) =
      let c = w.app.client in
      record {
        in_step = in_step;
        behind = f.behind ++ new;
        log =
            grown
            ∙ (ap (λ l. l ++ new) f.log
                ∙ (append_assoc c.received_events f.behind new
                    ∙ ap (λ a. a.client.received_events ++ (f.behind ++ new)) (sym same_app)));
        read = rw (same_taken, same_app) f.read;
        shown = rw same_app f.shown;
        pair = rw same_app f.pair;
      }

  grown_log :
      (s t : EventStore) (new : List GameEventEnvelope)
      → t.log ≡ s.log ++ new
      → events t ≡ events s ++ map (λ e. e.event) new
  unfolding events
  grown_log s t new h = ap (map (λ e. e.event)) h ∙ map-append (λ e. e.event) s.log new

  systems-IsFollowing :
      (w : World P N F K) (b : App F K)
      → IsFollowing w
      → HasReplayed (w.app.client).received_events (w.app.client).state b.client
      → IsFollowing (record w { app = b })
  systems-IsFollowing w b f (past, now, pair) = record {
    in_step = f.in_step;
    behind = f.behind;
    log = rw past f.log;
    read = rw past f.read;
    shown = rw (past, now) f.shown;
    pair = rw past pair;
  }

  receive-IsFollowing :
      (w : World P N F K) (raws later : List Bytes)
      → IsFollowing w
      → renet.is_connected w.server.service.broadcaster id ≡ true
      → renet.sent w.server.service.broadcaster id ≡ w.taken ++ (raws ++ later)
      → (m : GameState) × (now : List GameEvent) × (rest : List GameEvent) × (events
            w.server.service.store
          ≡ (w.app.client).received_events ++ (now ++ rest))
        × (map codec.decode_from_slice raws ≡ map some now)
        × (map codec.decode_from_slice later ≡ map some rest)
        × (hydrate ((w.app.client).received_events ++ now) ≡ some m)
        × (receive_server_events codec raws w.app.client ≡ some (after w.app.client m now))
  unfolding hydrate
  receive-IsFollowing w raws later f on sent =
      let c = w.app.client in
      let dec = codec.decode_from_slice in
      let (good, mirrored) = f.in_step in
      let (s, h, valid) = hydrate-IsValid good.history in
      let (evs, log, rest) =
        map-some-append (events w.server.service.store) c.received_events (map dec (raws ++ later))
          (ap (λ l. l ++ map dec (raws ++ later)) (sym f.read)
            ∙ (sym (map-append dec w.taken (raws ++ later))
                ∙ (ap (map dec) (sym sent) ∙ mirrored on))) in
      let (now, more, parts, k, j) =
        split-map-some (map dec raws) (map dec later) evs
          (sym (map-append dec raws later) ∙ rest) in
      let whole = log ∙ ap (λ l. c.received_events ++ l) parts in
      let (m, shown) =
        fold_events-prefix default (c.received_events ++ now) more
          (ap hydrate (append_assoc c.received_events now more ∙ sym whole) ∙ h) in
      (m, now, more, whole, k, j, shown, receive_lem codec raws now c m f.shown k shown)

  -- More events leave a known pair the one of the first of them.
  KnowsPair-append : (c : Client) (l now : List GameEvent) → KnowsPair l c → KnowsPair (l ++ now) c
  KnowsPair-append c l now (inl unknown) = inl unknown
  KnowsPair-append c l now (inr (first, rest, split, known)) =
      inr (first, rest ++ now, rw split (append_assoc first rest now), known)

  after-IsFollowing :
      (w : World P N F K) (b : App F K) (raws : List Bytes) (m : GameState)
      (now rest : List GameEvent)
      → IsFollowing (record w { app = b })
      → (events w.server.service.store ≡ (b.client).received_events ++ (now ++ rest))
      → map codec.decode_from_slice raws ≡ map some now
      → hydrate ((b.client).received_events ++ now) ≡ some m
      → IsFollowing
          (record w { app = record b { client = after b.client m now }; taken = w.taken ++ raws })
  after-IsFollowing w b raws m now rest g log read shown =
      let c = b.client in
      record {
        in_step = g.in_step;
        behind = rest;
        log = log ∙ sym (append_assoc c.received_events now rest);
        read =
            map-append codec.decode_from_slice w.taken raws
            ∙ (ap (λ l. l ++ map codec.decode_from_slice raws) g.read
                ∙ (ap (λ l. map some c.received_events ++ l) read
                    ∙ sym (map-append some c.received_events now)));
        shown = shown;
        pair = KnowsPair-append c c.received_events now g.pair;
      }

  Step-IsFollowing :
      (w v : World P N F K)
      → Step any codec renet port stamps name_of decode game_id float palette commands username id w
          v
      → IsFollowing w
      → IsFollowing v
  unfolding frame
  Step-IsFollowing w v (rounds l each) f =
      let net = renet_broadcaster any codec renet in
      let store = w.server.service.store in
      let (good, same, (new, grown)) =
        (main_loop-GoesOn any port net stamps name_of decode game_id store l).apply w.server
          (f.in_step.0, refl, ([], sym (append-nil store.log))) in
      rounds-IsFollowing w v f refl refl
        (main_loop-IsInStep any codec renet port stamps id returns name_of decode game_id l w.server
          each f.in_step)
        (map (λ e. e.event) new, grown_log store _ new grown)
  Step-IsFollowing w v (client_frame i {order} later {app} order_ok on sent run) f =
      elim (Option-cases (run_systems order w.app)) [
        | inl stuck ↦ cc (rw (frame, stuck) at run)
        | inr (b, ran) ↦
            let kept =
              update_systems-HasReplayed (w.app.client).received_events (w.app.client).state float
                palette commands codec id username i order_ok w.app b ran (refl, refl, f.pair) in
            let g = systems-IsFollowing w b f kept in
            let (m, now, rest, log, read, unread, shown, received) =
              receive-IsFollowing (record w { app = b }) i.received later g on sent in
            let same : record b { client = after b.client m now } ≡ app =
              cc (rw (frame, ran, on_client, received) at run) in
            subst (λ a. IsFollowing (record w { app = a; taken = w.taken ++ i.received })) same
              (after-IsFollowing w b i.received m now rest g log read shown)
      ]

  pub Reach-IsFollowing :
      {first w : World P N F K}
      → IsFollowing first
      → Reach any codec renet port stamps name_of decode game_id float palette commands username id
          first w
      → IsFollowing w
  Reach-IsFollowing f start = f
  Reach-IsFollowing f (step {w = w} {v = v} past next) =
      Step-IsFollowing w v next (Reach-IsFollowing f past)
