-- ===== src/Tests/Table.antt =====
-- Two clients of one server: Alice's has a frame in which it receives the joins and the start, and
-- then her move comes in.
use mathlib.Core.List
use tic_tac_tussle.Base.{ℕ, ◌≡◌, ◌⊎◌, refl, inl, inr, some, [], map, String, if◌then◌else◌, ◌==◌}
use tic_tac_tussle.State.{PlayerId}
use tic_tac_tussle.State.Pair.{PlayerPair, symbol_of}
use tic_tac_tussle.Store.{events}
use tic_tac_tussle.Ports.Doubles.{Captured, capturing_publisher}
use tic_tac_tussle.Server.Main.{main_loop}
use tic_tac_tussle.Server.Steps.{Connecting}
use tic_tac_tussle.Network.{renet_broadcaster}
use tic_tac_tussle.Session.{IsBeginning}
use tic_tac_tussle.Session.Table.{Table, Play, replace, view, client_turn, server_turn, begin, turn}
use tic_tac_tussle.Session.Agreement.{IsBehind, Play-IsBehind}
use tic_tac_tussle.Tests.Data
use tic_tac_tussle.Tests.Frame.{float, palette}
use tic_tac_tussle.Tests.Wire.{codec, network, Queues, encode, decode-encode_all}
use tic_tac_tussle.Tests.Session.{stamps, joined_store-IsGood, failures, captures, decode_byte}
use tic_tac_tussle.Tests.World.{commands, connected, inputs, informed, informs, systems, her_move}

abbrev Both : ℕ → Type 0
Both id = (id ≡ 1) ⊎ (id ≡ 2)

abbrev names : ℕ → String
names id = if id == 1 then "Alice" else "Bob"

abbrev seated : Table Captured Queues (Unit {0}) (Unit {0})
seated = record {
  server = connected.server;
  seats = λ id. record {
    app = record (connected.app) {
      client = record (connected.app.client) { local_player_id = some id };
    };
    taken = [];
  };
}

seated-IsBeginning :
    (id : ℕ)
    → Both id
    → IsBeginning failures codec network capturing_publisher stamps
        (λ n. "Player")
        decode_byte
        5
        float
        palette
        commands
        (names id)
        id
        (view failures codec network capturing_publisher stamps
          (λ n. "Player")
          decode_byte
          5
          float
          palette
          commands
          names
          Both
          id
          seated)
unfolding events
seated-IsBeginning id both = record {
  in_step = (joined_store-IsGood, λ on. decode-encode_all Data.joins);
  nothing_taken = refl;
  nothing_received = refl;
  no_pair = refl;
  first_state = refl;
}

abbrev moved : Table Captured Queues (Unit {0}) (Unit {0})
moved = record {
  server =
      (main_loop failures capturing_publisher (renet_broadcaster failures codec network) stamps
        (λ n. "Player") decode_byte 5 her_move connected.server).1;
  seats = replace 1 (record { app = informed; taken = map encode Data.joins }) seated.seats;
}

moved-Play :
    Play failures codec network capturing_publisher stamps
      (λ n. "Player")
      decode_byte
      5
      float
      palette
      commands
      names
      Both
      seated
      moved
unfolding Connecting
moved-Play =
    turn
      (turn begin (client_turn 1 inputs [] (inl refl) (List.Permᴰ.refl systems) refl refl informs))
      (server_turn her_move (λ id both. ((tt, (λ n on. (on, refl)), (λ n on. (on, refl))), tt)))

Play-IsBehind_example :
    let c = (moved.seats 1).app.client in
    let d = (moved.seats 2).app.client in
    (IsBehind c d ⊎ IsBehind d c)
    × ((p q : PlayerPair) (id : PlayerId)
        → c.maybe_pair ≡ some p
        → d.maybe_pair ≡ some q
        → symbol_of p id ≡ symbol_of q id)
Play-IsBehind_example =
    Play-IsBehind failures codec network capturing_publisher stamps captures (λ n. "Player")
      decode_byte 5 float palette commands names Both seated moved 1 2 seated-IsBeginning moved-Play
      (inl refl) (inr refl)
