-- ===== src/Tests/World.antt =====
-- Alice's client after it has connected, and a frame in which it receives the joins and the start.
use mathlib.Core.List
use tic_tac_tussle.Base.{
  ℕ, ◌≡◌, refl, true, false, Option, none, some, List, [], ◌∷◌, ◌++◌, Bytes, map, ok,
}
use tic_tac_tussle.State.{PlayerId, GameState, default, occupied}
use tic_tac_tussle.State.Pair.{PlayerPair, symbol_of}
use tic_tac_tussle.Commands.{GameCommand, join_game, place_tile, leave_game}
use tic_tac_tussle.Events.{GameEvent, player_joined, tile_placed}
use tic_tac_tussle.Decider.{hydrate, evolve}
use tic_tac_tussle.Decider.Branches.{symbol_for}
use tic_tac_tussle.Decider.Invariant.{IsValid}
use tic_tac_tussle.Store.{events}
use tic_tac_tussle.Ports.Doubles.{Captured, capturing_publisher}
use tic_tac_tussle.Server.Main.{Round, main_loop}
use tic_tac_tussle.Server.Steps.{Connecting}
use tic_tac_tussle.Network.{Codec, renet_broadcaster}
use tic_tac_tussle.Client.{
  Client, set_local_player_id, update_pair, joins, pair_of, on_event, receive_server_events,
}
use tic_tac_tussle.Client.Input.{clicked, handle_input, hovered}
use tic_tac_tussle.Client.Display.{render_pieces, render_hover}
use tic_tac_tussle.Client.Status.{update_status}
use tic_tac_tussle.Client.Replay.{after}
use tic_tac_tussle.State.Pair
use tic_tac_tussle.Client.Frame.{
  App, Inputs, System, run_systems, update_systems, frame, on_client, pair_system, pieces_system,
  hover_system, status_system,
}
use tic_tac_tussle.Client.Frame.Steady.{frame_lem}
use tic_tac_tussle.Session.{World, rounds, client_frame, Reach, IsBeginning}
use tic_tac_tussle.Session.Click.{after_round, click_shown}
use tic_tac_tussle.Client.Screen.{Window}
use tic_tac_tussle.Base.Vec
use tic_tac_tussle.Base.Vec.{get_elem?}
use tic_tac_tussle.Commands
use tic_tac_tussle.Events
use tic_tac_tussle.Board.{winning_symbol, is_full, find_pattern, match_pattern, win_patterns}
use tic_tac_tussle.Decider.{fold_events, decide}
use tic_tac_tussle.Store.{append, append_batch, snapshot}
use tic_tac_tussle.Ports.Doubles.{capture}
use tic_tac_tussle.Service.{publish, publish_raw, handle, append_events, broadcast, broadcast_all}
use tic_tac_tussle.Network.{renet_broadcast}
use tic_tac_tussle.Server.{
  Server, tick, handle_connections, drain_client_commands, drain_broker_commands, client_messages,
  client_command, on_decoded, submit,
}
use tic_tac_tussle.Session.Consistent.{Reach-IsConsistent}
use tic_tac_tussle.Tests.Data.{started, joins-hydrate}
use tic_tac_tussle.Tests.Data
use tic_tac_tussle.Tests.Frame.{float, palette}
use tic_tac_tussle.Tests.Wire.{
  codec, network, Queues, encode, decode, decode-encode, decode-encode_all,
}
use tic_tac_tussle.Tests.Session.{
  stamps, joined_store, joined_store-IsGood, Failure, failures, captures, decode_byte,
}

-- A command is written as the event it asks for.
abbrev pub wish : GameCommand → GameEvent
wish (join_game p name) = player_joined p name
wish (place_tile p at) = tile_placed p at
wish (leave_game p) = GameEvent.player_left p

abbrev wished : Option GameEvent → Option GameCommand
wished (some (player_joined p name)) = some (join_game p name)
wished (some (tile_placed p at)) = some (place_tile p at)
wished (some (GameEvent.player_left p)) = some (leave_game p)
wished _ = none

pub wished-wish : (c : GameCommand) → wished (some (wish c)) ≡ some c
wished-wish (join_game p name) = refl
wished-wish (place_tile p at) = refl
wished-wish (leave_game p) = refl

abbrev pub commands : Codec Failure GameCommand
commands = record {
  encode_to_vec = λ c. ok (encode (wish c));
  decode_from_slice = λ b. wished (decode b);
  round_trip = λ c. (encode (wish c), refl, rw (decode-encode (wish c)) (wished-wish c));
}

abbrev pub connected : World Captured Queues (Unit {0}) (Unit {0})
connected = record {
  server = record {
    service = record {
      store = joined_store;
      publisher = record { published = []; commands = [] };
      broadcaster = λ c. map encode Data.joins;
    };
    acked = [];
  };
  app = record {
    client = record {
      local_player_id = some 1;
      received_events = [];
      maybe_pair = none;
      state = default;
      written = [];
      outbox = [];
    };
    pieces = [];
    pieces_read = 0;
    scene = record { grid_lines = []; hover_cells = [] };
    status = none;
    status_read = 0;
  };
  taken = [];
}

connected-IsBeginning :
    IsBeginning failures codec network capturing_publisher stamps
      (λ n. "Player")
      decode_byte
      5
      float
      palette
      commands
      "Alice"
      1
      connected
unfolding events
connected-IsBeginning = record {
  in_step = (joined_store-IsGood, λ on. decode-encode_all Data.joins);
  nothing_taken = refl;
  nothing_received = refl;
  no_pair = refl;
  first_state = refl;
}

-- The window, without a cursor over it.
abbrev pub inputs : Inputs (Unit {0})
inputs = record {
  windows = some (record { width = tt; height = tt; cursor_position = none });
  just_pressed = false;
  received = map encode Data.joins;
}

abbrev pub informed : App (Unit {0}) (Unit {0})
informed = record (connected.app) { client = after connected.app.client started Data.joins }

abbrev pub systems : List (System (Unit {0}) (Unit {0}))
systems = update_systems float palette commands (codec {E = Failure}) 1 "Alice" inputs

pub informs :
    frame float palette commands (codec {E = Failure}) 1 "Alice" systems inputs connected.app
    ≡ some informed
unfolding frame run_systems update_systems set_local_player_id update_pair joins pair_of clicked
    handle_input hovered render_pieces render_hover update_status receive_server_events on_event
    evolve encode decode default
informs = refl

-- After the frame, Alice's move is in a round of the server.
abbrev pub her_move : List (Round Failure Queues)
her_move =
    record {
      update = λ n. (ok tt, n);
      inputs = record { connections = []; messages = (stamps 51, 4 ∷ []) ∷ []; broker = [] };
      send_packets = λ n. n;
    }
    ∷ []

abbrev followed : World Captured Queues (Unit {0}) (Unit {0})
followed = record {
  server =
      (main_loop failures capturing_publisher (renet_broadcaster failures codec network) stamps
        (λ n. "Player") decode_byte 5 her_move connected.server).1;
  app = informed;
  taken = map encode Data.joins;
}

followed-Reach :
    Reach failures codec network capturing_publisher stamps
      (λ n. "Player")
      decode_byte
      5
      float
      palette
      commands
      "Alice"
      1
      connected
      followed
unfolding Connecting
followed-Reach =
    Reach.step
      (Reach.step Reach.start (client_frame inputs [] (List.Permᴰ.refl systems) refl refl informs))
      (rounds her_move ((tt, (λ n on. (on, refl)), (λ n on. (on, refl))), tt))

Reach-IsConsistent_example :
    let c = followed.app.client in
    let log = events followed.server.service.store in
    (s : GameState) × (behind : List GameEvent) × (hydrate log ≡ some s)
    × IsValid s
    × (log ≡ c.received_events ++ behind)
    × (hydrate c.received_events ≡ some c.state)
    × ((pair : PlayerPair)
        → c.maybe_pair ≡ some pair
        → (p : PlayerId) → symbol_of pair p ≡ symbol_for s p)
    × ((raws : List Bytes)
        → network.is_connected followed.server.service.broadcaster 1 ≡ true
        → network.sent followed.server.service.broadcaster 1 ≡ followed.taken ++ raws
        → receive_server_events (codec {E = Failure}) raws c ≡ some (after c s behind))
Reach-IsConsistent_example =
    Reach-IsConsistent failures codec network capturing_publisher stamps captures (λ n. "Player")
      decode_byte 5 float palette commands "Alice" 1 connected followed connected-IsBeginning
      followed-Reach

-- Later Alice's client knows its pair; the status line comes first, and the pair before the id.
abbrev paired : App (Unit {0}) (Unit {0})
paired = record (informed) {
  client = record (informed.client) { maybe_pair = some (Pair.new 1 "Alice" 2 "Bob") };
}

abbrev told_first : List (System (Unit {0}) (Unit {0}))
told_first =
    status_system float palette
    ∷ pair_system
    ∷ on_client (set_local_player_id commands 1 "Alice")
    ∷ on_client (handle_input float commands inputs.windows false)
    ∷ pieces_system float palette
    ∷ hover_system float palette inputs.windows
    ∷ []

told_first-Permᴰ : List.Permᴰ told_first systems
unfolding update_systems
told_first-Permᴰ =
    List.Permᴰ.trans (List.Permᴰ.cons refl (List.Permᴰ.swap refl refl))
      (List.Permᴰ.append_comm (status_system float palette ∷ []) _)

frame_lem_example :
    frame float palette commands (codec {E = Failure}) 1 "Alice" told_first inputs paired
    ≡ frame float palette commands (codec {E = Failure}) 1 "Alice" systems inputs paired
frame_lem_example =
    frame_lem float palette commands (codec {E = Failure}) 1 "Alice" inputs paired
      ((1, refl), (_, refl)) told_first-Permᴰ

-- Alice clicks on the first cell; the message of her move is the only one of the next round.
abbrev over_cell : Window (Unit {0})
over_cell = record { width = tt; height = tt; cursor_position = some (tt, tt) }

her_click : clicked float (some over_cell) true informed.client ≡ ok (place_tile 1 0)
unfolding clicked Vec.get_elem? Vec.replicate
her_click = refl

abbrev her_message : Bytes
her_message = encode (tile_placed 1 0)

abbrev next_round : Server Captured Queues
next_round =
    after_round failures codec network capturing_publisher stamps captures (λ n. "Player") commands
      float stamps 1 her_message connected.server

her_message-sent :
    network.sent next_round.service.broadcaster 1
    ≡ map encode Data.joins ++ encode (tile_placed 1 0) ∷ []
unfolding tick handle_connections drain_client_commands drain_broker_commands client_messages
    client_command on_decoded submit decode encode publish publish_raw capture handle append_events
    broadcast broadcast_all Commands.new Events.new hydrate fold_events evolve decide events append
    append_batch snapshot Vec.get_elem? Vec.replicate Vec.set Vec.all winning_symbol is_full
    find_pattern match_pattern win_patterns renet_broadcast default
her_message-sent = refl

click_shown_example :
    let sending = record (informed.client) { outbox = her_message ∷ [] } in
    (my_id : PlayerId) × (at : ℕ) × (d : Client) × (some 1 ≡ some my_id)
    × (place_tile 1 0 ≡ place_tile my_id at)
    × (handle_input float commands (some over_cell) true informed.client ≡ some sending)
    × (receive_server_events (codec {E = Failure}) (her_message ∷ []) sending ≡ some d)
    × (d.received_events ≡ events next_round.service.store)
    × (hydrate d.received_events ≡ some d.state)
    × (get_elem? d.state.board at ≡ some (occupied (symbol_for started my_id)))
unfolding events encode
click_shown_example =
    click_shown failures codec network capturing_publisher stamps captures (λ n. "Player") commands
      float stamps 1 connected.server informed.client over_cell true (place_tile 1 0) her_message
      (map encode Data.joins) (her_message ∷ []) connected-IsBeginning.in_step refl joins-hydrate
      (decode-encode_all Data.joins) her_click refl refl her_message-sent
