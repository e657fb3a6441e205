-- ===== src/Tests/Senders.antt =====
-- Bob's client sends Alice's move; a third client disconnects.
use tic_tac_tussle.Base.{◌≡◌, refl, some, [], ◌∷◌, ◌++◌, map}
use tic_tac_tussle.Commands.{place_tile}
use tic_tac_tussle.Events.{GameEvent, EndGameReason, game_ended, tile_placed}
use tic_tac_tussle.State.{ended}
use tic_tac_tussle.Decider.{hydrate}
use tic_tac_tussle.Store.{events}
use tic_tac_tussle.Ports.Doubles.{Captured, capturing_publisher}
use tic_tac_tussle.Service.{GameService}
use tic_tac_tussle.Network.{renet_broadcaster}
use tic_tac_tussle.Server.{
  client_disconnected, handle_connections, drain_client_commands, client_messages, with_stamps,
}
use tic_tac_tussle.Server.Senders.{client_messages_lem}
use tic_tac_tussle.Server.Departures.{disconnect_ends_game}
use tic_tac_tussle.Tests.Data.{joins, started}
use tic_tac_tussle.Tests.Wire.{codec, network, Queues, encode}
use tic_tac_tussle.Tests.Session.{
  stamps, joined_store, failures, captures, decode_byte, joined_hydrates, move_decided,
}

abbrev in_play : GameService Captured Queues
in_play = record {
  store = joined_store;
  publisher = record { published = []; commands = [] };
  broadcaster = λ c. map encode joins;
}

client_messages_lem_example :
    events
      (drain_client_commands failures capturing_publisher
        (renet_broadcaster failures codec network)
        stamps
        decode_byte
        5
        (with_stamps stamps 0 (client_messages (2 ∷ []) (λ d. (4 ∷ []) ∷ [])))
        in_play).1.store
    ≡ events joined_store ++ tile_placed 1 4 ∷ []
client_messages_lem_example =
    client_messages_lem failures capturing_publisher (renet_broadcaster failures codec network)
      stamps captures 2 (4 ∷ []) (place_tile 1 4) decode_byte stamps in_play started
      (tile_placed 1 4 ∷ []) refl joined_hydrates move_decided

disconnect_ends_game_example :
    let log =
      events
        (handle_connections failures capturing_publisher
          (renet_broadcaster failures codec network)
          stamps
          (λ n. "Player")
          5
          ((stamps 50, client_disconnected 7) ∷ [])
          in_play).1.store in
    (log
      ≡ events joined_store
        ++ GameEvent.player_left 7 ∷ game_ended (EndGameReason.player_left 7) ∷ [])
    × (hydrate log ≡ some (record started { stage = ended }))
disconnect_ends_game_example =
    disconnect_ends_game failures capturing_publisher (renet_broadcaster failures codec network)
      stamps captures (λ n. "Player") 7 (stamps 50) in_play started joined_hydrates refl
