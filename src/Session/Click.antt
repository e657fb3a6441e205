-- ===== src/Session/Click.antt =====
-- client/src/main.rs and server/src/main.rs: a click on the client, through a round of the server, and
-- back.
use tic_tac_tussle.Base.{
  ℕ, ◌≡◌, refl, sym, ap, ◌∙◌, Bool, true, some, List, [], ◌∷◌, ◌++◌, Bytes, String, map, ok,
}
use tic_tac_tussle.Base.Vec.{get_elem?}
use tic_tac_tussle.Base.Vec.Laws.{get_elem?-set_self}
use tic_tac_tussle.State.{PlayerId, GameState, occupied}
use tic_tac_tussle.Commands.{Stamp, GameCommand, place_tile}
use tic_tac_tussle.Events.{GameEvent, tile_placed}
use tic_tac_tussle.Decider.{hydrate, decide, endings}
use tic_tac_tussle.Decider.Branches.{decide-place, placed, symbol_for}
use tic_tac_tussle.Decider.Result.{result_state}
use tic_tac_tussle.Decider.History.{hydrate-append}
use tic_tac_tussle.Store.{events}
use tic_tac_tussle.Ports.{EventPublisher, NetworkBroadcaster, Anyhow}
use tic_tac_tussle.Service.Preserves.{bind-Preserves}
use tic_tac_tussle.Service.Guarantees.{PublishReturns}
use tic_tac_tussle.Server.{
  Server, Inputs, client_messages, with_stamps, tick, on_service, handle_connections,
  drain_client_commands, drain_broker_commands,
}
use tic_tac_tussle.Server.Senders.{client_messages_lem}
use tic_tac_tussle.Server.Steps.{Connecting}
use tic_tac_tussle.Network.{Codec, Renet, renet_broadcaster}
use tic_tac_tussle.Network.Rounds.{IsInStep, tick-IsInStep}
use tic_tac_tussle.Client.{Client, send, receive_server_events}
use tic_tac_tussle.Client.Screen.{Float, Window}
use tic_tac_tussle.Client.Input.{clicked, clicked_lem, handle_input}
use tic_tac_tussle.Session.Following.{append_cancel}
use tic_tac_tussle.Client.Replay.{after, client_shows_log}

module _ {E P N F : Type 0} (any : Anyhow E) (codec : Codec E GameEvent) (renet : Renet N)
    (port : EventPublisher E P) (stamps : ℕ → Stamp) (returns : PublishReturns port)
    (name_of : ℕ → String) (commands : Codec E GameCommand) (float : Float F) (clock : ℕ → Stamp)
    (id : ℕ) where
  abbrev net : NetworkBroadcaster E N
  net = renet_broadcaster any codec renet

  -- A round that takes in one message of the client.
  abbrev pub one_message : Bytes → Inputs
  one_message b = record {
    connections = [];
    messages = with_stamps clock 0 (client_messages (id ∷ []) (λ d. b ∷ []));
    broker = [];
  }

  abbrev pub after_round : Bytes → Server P N → Server P N
  after_round b s =
      (tick any port net stamps name_of commands.decode_from_slice s.service.store.game_id
        (one_message b) s).1

  round-events :
      (b : Bytes) (s : Server P N) (cmd : GameCommand) (state : GameState) (evs : List GameEvent)
      → commands.decode_from_slice b ≡ some cmd
      → hydrate (events s.service.store) ≡ some state
      → decide state cmd ≡ ok evs
      → events (after_round b s).service.store ≡ events s.service.store ++ evs
  unfolding tick handle_connections drain_broker_commands
  round-events b s cmd state evs read h d =
      let log = events s.service.store ++ evs in
      let drain =
        drain_client_commands any port net stamps commands.decode_from_slice s.service.store.game_id
          (one_message b).messages in
      (bind-Preserves (λ t. events t.service.store ≡ log) {Pre = λ t. t ≡ s} (on_service drain)
          (λ u. drain_broker_commands any port net stamps [])
          (record {
            apply = λ t e. rw e (
                client_messages_lem any port net stamps returns id b cmd commands.decode_from_slice
                  clock s.service state evs read h d);
          })
          (λ u. record { apply = λ t h. h })).apply
        s refl

  round-IsInStep :
      (b : Bytes) (s : Server P N)
      → IsInStep any codec renet port stamps id s.service
      → IsInStep any codec renet port stamps id (after_round b s).service
  unfolding Connecting
  round-IsInStep b s h =
      tick-IsInStep any codec renet port stamps id returns name_of commands.decode_from_slice
        s.service.store.game_id (one_message b) s tt h

  -- The client, where it has received the whole log, comes to the result of its own command.
  command_shown :
      (b : Bytes) (s : Server P N) (c : Client) (cmd : GameCommand) (evs : List GameEvent)
      (taken raws : List Bytes)
      → IsInStep any codec renet port stamps id s.service
      → events s.service.store ≡ c.received_events
      → hydrate c.received_events ≡ some c.state
      → map codec.decode_from_slice taken ≡ map some c.received_events
      → commands.decode_from_slice b ≡ some cmd
      → decide c.state cmd ≡ ok evs
      → renet.is_connected (after_round b s).service.broadcaster id ≡ true
      → renet.sent (after_round b s).service.broadcaster id ≡ taken ++ raws
      → receive_server_events codec raws c ≡ some (after c (result_state c.state cmd) evs)
  command_shown b s c cmd evs taken raws in_step whole now past read d on sent =
      let grown = round-events b s cmd c.state evs read (ap hydrate whole ∙ now) d in
      let (t, new, h, valid, log, run) =
        client_shows_log any codec renet port stamps id (after_round b s).service c taken raws
          (round-IsInStep b s in_step) on sent past now in
      let same : new ≡ evs =
        append_cancel c.received_events new evs (sym log ∙ (grown ∙ ap (λ l. l ++ evs) whole)) in
      let step = hydrate-append c.received_events cmd now d in
      let result : t ≡ result_state c.state cmd = cc in rw (← same, ← result) run

  read_back :
      (cmd : GameCommand) (b : Bytes)
      → commands.encode_to_vec cmd ≡ ok b
      → commands.decode_from_slice b ≡ some cmd
  read_back cmd b e = let (b', run, back) = commands.round_trip cmd in let same : b' ≡ b = cc in cc

  -- A click of a client that has received the whole log, over a server that keeps it in step: where
  -- the publisher returns and the click sends a command, that is a move, and the system only puts
  -- its message into the outbox and does not panic. After the round of the server that takes in the
  -- message and nothing else, where the client is still connected, the client receives what was
  -- sent since without a panic: it has again received the whole log, its state is the one that the
  -- log hydrates to, and the cell of the move shows the player's symbol.
  pub click_shown :
      (s : Server P N) (c : Client) (window : Window F) (just_pressed : Bool) (cmd : GameCommand)
      (b : Bytes) (taken raws : List Bytes)
      → IsInStep any codec renet port stamps id s.service
      → events s.service.store ≡ c.received_events
      → hydrate c.received_events ≡ some c.state
      → map codec.decode_from_slice taken ≡ map some c.received_events
      → clicked float (some window) just_pressed c ≡ ok cmd
      → commands.encode_to_vec cmd ≡ ok b
      → renet.is_connected (after_round b s).service.broadcaster id ≡ true
      → renet.sent (after_round b s).service.broadcaster id ≡ taken ++ raws
      → let sending = record c { outbox = c.outbox ++ b ∷ [] } in
        (my_id : PlayerId) × (at : ℕ) × (d : Client) × (c.local_player_id ≡ some my_id)
        × (cmd ≡ place_tile my_id at)
        × (handle_input float commands (some window) just_pressed c ≡ some sending)
        × (receive_server_events codec raws sending ≡ some d)
        × (d.received_events ≡ events (after_round b s).service.store)
        × (hydrate d.received_events ≡ some d.state)
        × (get_elem? d.state.board at ≡ some (occupied (symbol_for c.state my_id)))
  unfolding handle_input send
  click_shown s c window just_pressed cmd b taken raws in_step whole now past click enc on sent =
      let sending = record c { outbox = c.outbox ++ b ∷ [] } in
      let (my_id, at, e, (me, hover, down, legal)) =
        ((clicked_lem float window just_pressed c).0 cmd).0 click in
      let evs = tile_placed my_id at ∷ endings my_id (placed c.state my_id at) in
      let accepted : decide c.state cmd ≡ ok evs =
        ap (decide c.state) e ∙ ((decide-place c.state my_id at).0 evs).1 (legal, refl) in
      let read = read_back cmd b enc in
      let grown = round-events b s cmd c.state evs read (ap hydrate whole ∙ now) accepted in
      (
        my_id,
        at,
        after sending (result_state c.state cmd) evs,
        me,
        e,
        rw (handle_input, click, send, enc) refl,
        command_shown b s sending cmd evs taken raws in_step whole now past read accepted on sent,
        sym (grown ∙ ap (λ l. l ++ evs) whole),
        hydrate-append c.received_events cmd now accepted,
        ap (λ k. get_elem? (result_state c.state k).board at) e
            ∙ get_elem?-set_self c.state.board at _ legal.2,
      )
