-- ===== src/Client/Replay.antt =====
-- client/src/main.rs: `receive_server_events` replays the log that the server sends.
use tic_tac_tussle.Base.{
  ℕ, ◌≡◌, refl, sym, ap, ◌∙◌, Bool, true, Option, some, List, [], ◌∷◌, ◌++◌, map, map-append,
  append-nil, append_assoc, Option-cases, inl, inr, Bytes, ok,
}
use tic_tac_tussle.State.{PlayerId, GameState, default}
use tic_tac_tussle.Commands.{Stamp, CommandEnvelope, place_tile}
use tic_tac_tussle.Events.{GameEvent, tile_placed}
use tic_tac_tussle.Decider.{evolve, fold_events, hydrate, decide, endings}
use tic_tac_tussle.Decider.Branches.{decide-place, placed}
use tic_tac_tussle.Decider.History.{fold_events-append, hydrate-IsValid}
use tic_tac_tussle.Decider.Invariant.{IsValid}
use tic_tac_tussle.Store.{events}
use tic_tac_tussle.Ports.{EventPublisher, NetworkBroadcaster, Anyhow}
use tic_tac_tussle.Service.{GameService, handle}
use tic_tac_tussle.Service.Guarantees.{handle_accepted}
use tic_tac_tussle.Network.{Codec, Renet}
use tic_tac_tussle.Network.Rounds.{IsInStep}
use tic_tac_tussle.Client.{Client, on_event, receive_server_events}
use tic_tac_tussle.Client.Screen.{Float, Window}
use tic_tac_tussle.Client.Input.{clicked, clicked_lem}

-- A list of events that begins with others goes on with some events.
pub map-some-append :
    (xs l : List GameEvent) (r : List (Option GameEvent))
    → map some l ++ r ≡ map some xs
    → (evs : List GameEvent) × (xs ≡ l ++ evs) × (r ≡ map some evs)
map-some-append xs [] r h = (xs, refl, h)
map-some-append [] (e ∷ l) r h = cc
map-some-append (x ∷ xs) (e ∷ l) r h =
    let (evs, p, q) = map-some-append xs l r cc in let same : x ≡ e = cc in (evs, cc, q)

-- The client after some events.
abbrev pub after : Client → GameState → List GameEvent → Client
after c s evs = record c {
  state = s;
  received_events = c.received_events ++ evs;
  written = c.written ++ evs;
}

module _ {E : Type 0} (codec : Codec E GameEvent) where
  receive-fold_events :
      (raws : List Bytes) (evs : List GameEvent) (c : Client) (s : GameState)
      → map codec.decode_from_slice raws ≡ map some evs
      → fold_events c.state evs ≡ some s
      → receive_server_events codec raws c ≡ some (after c s evs)
  unfolding receive_server_events on_event fold_events
  receive-fold_events [] [] c s d h =
      let same : c.state ≡ s = cc in rw (append-nil c.received_events, append-nil c.written, ← same)
  receive-fold_events [] (e ∷ evs) c s d h = cc
  receive-fold_events (raw ∷ raws) [] c s d h = cc
  receive-fold_events (raw ∷ raws) (e ∷ evs) c s d h =
      let first : codec.decode_from_slice raw ≡ some e = cc in
      let rest : map codec.decode_from_slice raws ≡ map some evs = cc in
      elim (Option-cases (evolve c.state e)) [
        | inl stuck ↦ absurd (cc (rw (stuck, fold_events) at h))
        | inr (next, step) ↦
            rw (first, step, receive_server_events, on_event)
              (receive-fold_events raws evs (after c next (e ∷ [])) s rest
                  (rw (step, fold_events) at h)
                ∙ rw (
                  append_assoc c.received_events (e ∷ []) evs,
                  append_assoc c.written (e ∷ []) evs,
                ))
      ]

  -- Whatever comes in, in however many frames: messages of events that the log goes on with are
  -- received without a panic, and lead to the state that the log hydrates to.
  pub receive_lem :
      (raws : List Bytes) (evs : List GameEvent) (c : Client) (s : GameState)
      → hydrate c.received_events ≡ some c.state
      → map codec.decode_from_slice raws ≡ map some evs
      → hydrate (c.received_events ++ evs) ≡ some s
      → receive_server_events codec raws c ≡ some (after c s evs)
  unfolding hydrate
  receive_lem raws evs c s now d h =
      receive-fold_events raws evs c s d
        (sym (fold_events-append default c.received_events evs now) ∙ h)

module _ {E P N : Type 0} (any : Anyhow E) (codec : Codec E GameEvent) (renet : Renet N)
    (port : EventPublisher E P) (stamps : ℕ → Stamp) (id : ℕ) where
  -- A connected client that the server keeps in step, and that has replayed the messages received
  -- so far, shows the server's valid state once it has received the others; that does not panic.
  pub client_shows_log :
      (g : GameService P N) (c : Client) (before raws : List Bytes)
      → IsInStep any codec renet port stamps id g
      → renet.is_connected g.broadcaster id ≡ true
      → renet.sent g.broadcaster id ≡ before ++ raws
      → map codec.decode_from_slice before ≡ map some c.received_events
      → hydrate c.received_events ≡ some c.state
      → (s : GameState) × (evs : List GameEvent) × (hydrate (events g.store) ≡ some s)
        × IsValid s
        × (events g.store ≡ c.received_events ++ evs)
        × (receive_server_events codec raws c ≡ some (after c s evs))
  client_shows_log g c before raws (good, sent) on split past now =
      let (s, h, valid) = hydrate-IsValid good.history in
      let whole = sent on in
      let (evs, log, rest) =
        map-some-append (events g.store) c.received_events (map codec.decode_from_slice raws) (
          ap (λ l. l ++ map codec.decode_from_slice raws) (sym past)
          ∙ (sym (map-append codec.decode_from_slice before raws)
              ∙ (ap (map codec.decode_from_slice) (sym split) ∙ whole))) in
      (s, evs, h, valid, log, receive_lem codec raws evs c s now rest (ap hydrate (sym log) ∙ h))

module _ {E P N F : Type 0} (any : Anyhow E) (port : EventPublisher E P)
    (net : NetworkBroadcaster E N) (stamps : ℕ → Stamp) (float : Float F) where
  -- The move that a click sends from a client that shows the server's state is accepted when it
  -- reaches the service: the tile is placed in the log, whatever the broker and the network do.
  pub click_placed :
      (g : GameService P N) (c : Client) (window : Window F) (just_pressed : Bool)
      (cmd : CommandEnvelope)
      → hydrate (events g.store) ≡ some c.state
      → clicked float (some window) just_pressed c ≡ ok cmd.command
      → cmd.game_id ≡ g.store.game_id
      → (my_id : PlayerId) × (at : ℕ) × (c.local_player_id ≡ some my_id)
        × (cmd.command ≡ place_tile my_id at)
        × (events (handle any port net stamps cmd g).1.store
            ≡ events g.store ++ tile_placed my_id at ∷ endings my_id (placed c.state my_id at))
  click_placed g c window just_pressed cmd h click same =
      let (my_id, at, e, (me, hover, down, legal)) =
        ((clicked_lem float window just_pressed c).0 cmd.command).0 click in
      let run = ((decide-place c.state my_id at).0 _).1 (legal, refl) in
      (
        my_id,
        at,
        me,
        e,
        (handle_accepted any port net stamps cmd g c.state _ same h
            (ap (decide c.state) e ∙ run)).0,
      )
