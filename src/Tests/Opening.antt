-- ===== src/Tests/Opening.antt =====
-- Alice's client starts and asks to join, before its connection reaches the server.
use mathlib.Core.List
use tic_tac_tussle.Base.{◌≡◌, refl, some, [], ◌∷◌}
use tic_tac_tussle.Commands.{join_game}
use tic_tac_tussle.Server.Main.{main_loop}
use tic_tac_tussle.Server.Steps.{Connecting}
use tic_tac_tussle.Ports.Doubles.{capturing_publisher}
use tic_tac_tussle.Network.{renet_broadcaster}
use tic_tac_tussle.Client
use tic_tac_tussle.Client.{
  Client, send, set_local_player_id, update_pair, joins, pair_of, receive_server_events,
}
use tic_tac_tussle.Client.Input.{clicked, handle_input, hovered}
use tic_tac_tussle.Client.Display.{render_pieces, render_hover, setup, grid_lines, hover_cell}
use tic_tac_tussle.Client.Screen.{cell_pos}
use tic_tac_tussle.Client.Status.{update_status}
use tic_tac_tussle.Client.Frame.{App, Inputs, run_systems, update_systems, frame}
use tic_tac_tussle.Session.{IsBeginning}
use tic_tac_tussle.Session.Opening.{startup, Early, started, framed, connection-IsBeginning}
use tic_tac_tussle.State.{default}
use tic_tac_tussle.Tests.Frame.{float, palette}
use tic_tac_tussle.Tests.Wire.{codec, network, encode}
use tic_tac_tussle.Tests.Session.{
  stamps, joined_store-IsGood, Failure, failures, captures, decode_byte,
}
use tic_tac_tussle.Tests.Rounds.{newcomer, calm, arrival, busy}
use tic_tac_tussle.Tests.World.{commands, inputs, wish}

-- The window, and no message.
abbrev quiet_inputs : Inputs (Unit {0})
quiet_inputs = record (inputs) { received = [] }

abbrev asking : App (Unit {0}) (Unit {0})
asking = record (startup float palette) {
  client = record (Client.new) {
    local_player_id = some 1;
    outbox = encode (wish (join_game 1 "Alice")) ∷ [];
  };
}

asks :
    frame float palette commands
      (codec {E = Failure})
      1
      "Alice"
      (update_systems float palette commands (codec {E = Failure}) 1 "Alice" quiet_inputs)
      quiet_inputs
      (startup float palette)
    ≡ some asking
unfolding frame run_systems update_systems set_local_player_id send update_pair joins pair_of
    clicked handle_input hovered render_pieces render_hover update_status receive_server_events
    startup setup grid_lines hover_cell cell_pos Client.new encode default
asks = refl

asking-Early : Early float palette commands (codec {E = Failure}) 1 "Alice" asking
asking-Early = framed quiet_inputs started refl (List.Permᴰ.refl _) asks

connection-IsBeginning_example :
    IsBeginning failures codec network capturing_publisher stamps
      (λ n. "Alice")
      decode_byte
      5
      float
      palette
      commands
      "Alice"
      1
      (record {
        server =
            (main_loop failures capturing_publisher
              (renet_broadcaster failures codec network)
              stamps
              (λ n. "Alice")
              decode_byte
              5
              (calm arrival ∷ calm busy ∷ [])
              newcomer).1;
        app = asking;
        taken = [];
      })
unfolding Connecting
connection-IsBeginning_example =
    connection-IsBeginning failures codec network capturing_publisher stamps captures (λ n. "Alice")
      decode_byte 5 float palette commands "Alice" 1 asking (calm arrival) (stamps 50) []
      (calm busy ∷ []) newcomer asking-Early joined_store-IsGood refl refl tt refl
      (λ n on. (on, refl)) ((tt, (λ n on. (on, refl)), (λ n on. (on, refl))), tt)
