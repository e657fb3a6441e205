-- ===== src/Tests/Rounds.antt =====
-- The theorems on the rounds of the server, on its builder and on the broker's messages that come
-- back, in the session of Alice (1) and Bob (2).
use tic_tac_tussle.Base.{
  ℕ, ◌+◌, ◌<◌, ◌≤◌, ◌≡◌, ◌⊎◌, refl, some, none, ok, true, Option, [], ◌∷◌, length, Memᴰ, Bytes,
  none, ◌==◌, if◌then◌else◌,
}
use tic_tac_tussle.State.{GameState, default, in_game}
use tic_tac_tussle.Commands.{CommandEnvelope, place_tile}
use tic_tac_tussle.Events.{tile_placed, player_joined, game_started}
use tic_tac_tussle.Server.Starting.{IsArrival, main_loop_starts}
use tic_tac_tussle.Decider.{hydrate, decide}
use tic_tac_tussle.Decider.Game.{moves}
use tic_tac_tussle.Store.{EventStore, events}
use tic_tac_tussle.Store
use tic_tac_tussle.Events
use tic_tac_tussle.Service
use tic_tac_tussle.Base.Vec
use tic_tac_tussle.Decider.{evolve, fold_events}
use tic_tac_tussle.Board.{winning_symbol, is_full}
use tic_tac_tussle.Network.{renet_broadcast}
use tic_tac_tussle.Ports.Doubles.{capture}
use tic_tac_tussle.Tests.Wire.{encode}
use tic_tac_tussle.Ports.Doubles.{Captured, capturing_publisher, noop_broadcaster}
use tic_tac_tussle.Service.{GameService, handle}
use tic_tac_tussle.Service.Handle.{IsGood}
use tic_tac_tussle.Server.{Inputs, Server, client_connected, client_disconnected, broker_command}
use tic_tac_tussle.Server.Main.{Round, start, main_loop}
use tic_tac_tussle.Server.Runs.{main_loop_lem}
use tic_tac_tussle.Server.Echo.{echo_unacked}
use tic_tac_tussle.Network.{renet_broadcaster}
use tic_tac_tussle.Redpanda.{decode_command, message, consume}
use tic_tac_tussle.Redpanda.Delivery.{System, Reach, IsSettled, answered, Reach-IsSettled}
use tic_tac_tussle.Redpanda.Delivery
use tic_tac_tussle.Tests.Data.{started as state_of_session}
use tic_tac_tussle.Tests.Wire.{codec, network, Queues}
use tic_tac_tussle.Tests.Session.{
  stamps, joined_store, joined_store-IsGood, Failure, failures, order, decode_byte, from_broker,
  captures, joined_hydrates, move_decided,
}

abbrev captured : Captured
captured = record { published = []; commands = [] }

-- A round that leaves the network alone but for what the game sends.
abbrev pub calm : Inputs → Round Failure Queues
calm i = record { update = λ n. (ok tt, n); inputs = i; send_packets = λ n. n }

-- Alice connects; then Bob leaves, and Alice sends a move, which the broker brings again.
abbrev pub arrival : Inputs
arrival = record { connections = (stamps 50, client_connected 1) ∷ []; messages = []; broker = [] }

abbrev pub busy : Inputs
busy = record {
  connections = (stamps 50, client_disconnected 2) ∷ [];
  messages = (stamps 51, 4 ∷ []) ∷ [];
  broker = from_broker (order 5 (place_tile 1 4)) ∷ [];
}

main_loop_lem_example :
    let store =
      (main_loop failures capturing_publisher
        (renet_broadcaster failures codec network)
        stamps
        (λ n. "Player")
        decode_byte
        5
        (calm arrival ∷ calm busy ∷ [])
        (start captured (λ c. []) 5)).1.service.store in
    IsGood store
    × (store.game_id ≡ 5)
    × ((s : GameState) × (hydrate (events store) ≡ some s)
        × (length (moves (events store)) ≤ 9)
        × (s.stage ≡ in_game → length (moves (events store)) < 9))
main_loop_lem_example =
    main_loop_lem failures capturing_publisher (renet_broadcaster failures codec network) stamps
      (λ n. "Player") decode_byte 5 captured (λ c. []) (calm arrival ∷ calm busy ∷ [])

abbrev pub newcomer : Server Captured Queues
newcomer = record {
  service = record { store = joined_store; publisher = captured; broadcaster = λ c. [] };
  acked = [];
}

-- Alice's move comes back from the broker.
echo_unacked_example :
    let t = record newcomer {
      service =
          (handle failures capturing_publisher
            (renet_broadcaster failures codec network)
            stamps
            (order 5 (place_tile 1 4))
            newcomer.service).1;
    } in
    broker_command failures capturing_publisher
      (renet_broadcaster failures codec network)
      stamps
      (from_broker (order 5 (place_tile 1 4)))
      t
    ≡ (ok tt, t)
echo_unacked_example =
    echo_unacked failures capturing_publisher (renet_broadcaster failures codec network) stamps
      newcomer (from_broker (order 5 (place_tile 1 4))) state_of_session (tile_placed 1 4 ∷ [])
      joined_store-IsGood refl joined_hydrates move_decided (λ p h. cc)

-- A message that holds Alice's move, at the offset 7.
abbrev from_slice : Bytes → Option CommandEnvelope
from_slice (b ∷ (id ∷ [])) = some (order id (place_tile 1 4))
from_slice _ = none

abbrev first : System Captured Queues
first = record {
  consumer = record { forwarded = []; committed = []; running = true };
  server = newcomer;
}

-- The message is handed on, handled and acknowledged.
abbrev payload : Bytes
payload = 32 ∷ 123 ∷ 5 ∷ []

abbrev topic : ℕ → Option Bytes
topic n = if n == 7 then some payload else none

abbrev after_move : System Captured Queues
after_move = record {
  consumer =
      consume from_slice
        (message 7 (some payload) true (
          Delivery.reply_of failures capturing_publisher (renet_broadcaster failures codec network)
            stamps from_slice topic
            (handle failures capturing_publisher (renet_broadcaster failures codec network) stamps
              (order 5 (place_tile 1 4)) newcomer.service).0))
        first.consumer;
  server =
      (broker_command failures capturing_publisher (renet_broadcaster failures codec network) stamps
        (from_broker (order 5 (place_tile 1 4))) newcomer).1;
}

move_read : decode_command from_slice payload ≡ some (order 5 (place_tile 1 4))
unfolding decode_command
move_read = refl

move_committed : Memᴰ 7 after_move.consumer.committed
unfolding consume Service.handle renet_broadcast hydrate decide evolve fold_events
    Store.append_batch events Events.new capture Vec.get_elem? Vec.set Vec.replicate winning_symbol
    is_full Vec.all encode
move_committed = Memᴰ.head refl

Reach-IsSettled_example :
    Memᴰ {A = ℕ} 7 []
    ⊎ IsSettled failures capturing_publisher
        (renet_broadcaster failures codec network)
        stamps
        from_slice
        topic
        7
        after_move.server.service.store
Reach-IsSettled_example =
    Reach-IsSettled failures capturing_publisher (renet_broadcaster failures codec network) stamps
      from_slice topic first after_move joined_store-IsGood
      (Reach.later Reach.start
        (answered 7 payload (from_broker (order 5 (place_tile 1 4))) refl move_read))
      7 move_committed

-- Alice and Bob connect to a new server, one round each.
abbrev hello : ℕ → Round Failure (Unit {0})
hello c = record {
  update = λ n. (ok tt, n);
  inputs = record {
    connections = (stamps (c + 50), client_connected c) ∷ [];
    messages = [];
    broker = [];
  };
  send_packets = λ n. n;
}

hello-IsArrival : (c : ℕ) → IsArrival c (hello c)
hello-IsArrival c = ((λ n. refl), (stamps (c + 50), refl), refl, refl)

main_loop_starts_example :
    let (run, after) =
      main_loop failures capturing_publisher noop_broadcaster stamps
        (λ n. "Player")
        decode_byte
        5
        (hello 1 ∷ hello 2 ∷ [])
        (start captured tt 5) in
    (run ≡ ok tt)
    × (events after.service.store
        ≡ player_joined 1 "Player" ∷ player_joined 2 "Player" ∷ game_started 1 ∷ [])
    × (hydrate (player_joined 1 "Player" ∷ player_joined 2 "Player" ∷ game_started 1 ∷ [])
        ≡ some (record default { stage = in_game; active_player_id = 1; players = (1, 2) }))
main_loop_starts_example =
    main_loop_starts failures capturing_publisher noop_broadcaster stamps captures (λ e n h. cc)
      (λ c e n h. cc) 5 (λ n. "Player") decode_byte 1 2 (λ h. cc) (λ h. cc) (λ h. cc) captured tt
      (hello 1) (hello 2) (hello-IsArrival 1) (hello-IsArrival 2)
