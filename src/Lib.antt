-- ===== src/Lib.antt =====
-- The verification library of tic-tac-tussle, a two-player game that is kept as a log of events.
--
-- The program. A client sends commands (join, place a tile, leave) to a server, over UDP or through
-- a message broker. The server's GameService replays the log of the game into a state, lets the
-- decider judge the command against that state, appends the events that the decider gives to the
-- log, publishes them to the broker and broadcasts them to the clients. A client that connects is
-- sent the log so far, and replays it. The simulation harness replays logs offline.
--
-- The files, and what they model:
--   State.antt, State/Pair.antt     store/src/state.rs: GameState, tiles, stages, PlayerPair
--   Commands.antt, Events.antt      store/src/commands.rs, store/src/events.rs; Events/Transfer
--                                   has an envelope as bytes
--   Errors.antt                     store/src/errors.rs
--   Board.antt                      store/src/board.rs: winning_symbol and is_full;
--                                   Board/Wins.antt has the lines of the grid
--   Decider.antt                    store/src/decider.rs: evolve, hydrate, require_stage, decide;
--                                   Branches (when a command is accepted), Result (the state it
--                                   leads to), Invariant, Winner, Redelivery, Departure, History
--                                   (the logs of a game), Opening (its first events), Placements
--                                   (what its log records of the board), Progress (how long it can
--                                   last) and Game (the game on paper) are below it
--   Store.antt, Store/Log.antt      store/src/store.rs: EventStore
--   Simulation.antt                 store/src/simulation.rs: SimulationHarness; Replay and Branch
--   Ports.antt, Ports/Doubles.antt  store/src/ports.rs: the traits, the acknowledgement handle and
--                                   the test doubles
--   Service.antt                    server/src/game_service.rs: handle, catch_up, publish; Builder
--                                   has the builder, Handle the paths through handle, Guarantees
--                                   what holds on them, Preserves the invariants of calls in
--                                   sequence, Works the calls that return, Play a game to its end
--   Server.antt                     server/src/main.rs: what one round of the game loop does; Main
--                                   has the start, the network's part of a round and the loop, Acks
--                                   the acknowledgements, Steps, Loop and Runs what every round
--                                   keeps, Starting a new game, Echo a command that comes back,
--                                   Senders whose command a message is, Departures a client
--                                   that disconnects
--   Network.antt                    server/src/adapters/renet.rs; Sending, Mirror, Rounds and
--                                   Sessions have what the clients are sent, Overlap two clients
--                                   that connect in one round
--   Client.antt                     client/src/main.rs: the resources, set_local_player_id,
--                                   receive_server_events, update_pair; Screen and Grid have the
--                                   cells of the window, Input handle_input, Display and Pieces
--                                   what is drawn, Highlight render_hover, Status the status line
--                                   and Bar where it lies, Replay the log on the client, Players
--                                   the pair, Names its names, Frame the systems of a frame;
--                                   Frame/Keeps, Frame/Steady and Frame/Order what depends on
--                                   their order, on Frame/Commute and Frame/Outbox
--   Redpanda.antt                   server/src/adapters/redpanda.rs: publish and consumer_loop;
--                                   Publishing and Consuming have their theorems, Delivery a
--                                   consumer and the game service together, Groups the parallel
--                                   consumers and Groups/Queue what they hand on, Setup how the
--                                   clients are made
--   Session.antt                    the server and a client together: Session/Opening has how a
--                                   client starts, Session/Following what each step keeps,
--                                   Session/Consistent what the client shows, Session/Click a
--                                   click on its way to the server and back, Session/Table the
--                                   server with several clients, Session/Agreement what these
--                                   have in common
--   UserData.antt                   client/src/main.rs (build_transport) and server/src/main.rs
--                                   (name_from_user_data): the name in the netcode user data
--   Base.antt                       shared names, lists, arrays, integers and outcomes
--   Tests.antt                      runs on small inputs; below Tests/Source the unit tests of the
--                                   repository, run on the model
--
-- How the code corresponds. A function of the source has its name here, in snake case, and its
-- branches in the source's order. A panic is a value: none where no error is returned, and
-- Outcome.panic where one is. So evolve returns none on a tile index past the board, as the source
-- panics there. The board is an array whose length is in its type. A method that changes its object
-- returns the new one; a method that can also fail is an action, which hands the changed object back
-- after an error or a panic too. The two traits of ports.rs are records of operations over the state
-- of the implementation, and anyhow's error type is a parameter with the documented laws of
-- downcast_ref. The mutex of the event store is held for the whole of each method, so a method is
-- one step on the log. Uuids and times are stamps that are handed in, and names are carried along.
--
-- Numbers. A u64, a usize and a Uuid are natural numbers: the program compares and copies them, and
-- the one number that it counts up is the length of a log in memory, which a u64 holds.
--
-- Loops. Each loop over a collection is a recursion on it. The loop of run_to_end takes as fuel the
-- number of events left and one round more, which is proved to be enough. The endless loop of the
-- server is a recursion on a list of rounds, each with what comes in during it: the list is as long
-- as one likes. The tasks of the consumer groups take their turns as a schedule says, and the
-- theorem on them is about every schedule.
--
-- Libraries. The crates renet and bincode are parameters with laws: an encoded value decodes to
-- itself, and a client that stays connected is sent the messages of its reliable and ordered channel
-- in their order. The floating point numbers of the client are a parameter, with the laws of small
-- integers where a theorem needs them, and so are its colours. The producer, the clients'
-- constructors and the serialisation of rdkafka and serde_json are parameters too, and the order that
-- Bevy gives the systems of a frame is handed in. The name in a client's user data is a function of
-- the client's id, the same in every round. How Bevy resolves a length of the status bar's node is a
-- parameter with laws. The channel to the game loop is a list without a bound, so that a consumer
-- never has to wait for room in it.
--
-- Not modelled: sockets and packets, threads and the pacing of the loop, logging, how identifiers are
-- printed, what is in the status bar but for its text and colour, and the assembly of the Bevy app. They only
-- call libraries.
pub mod Base
pub mod State
pub mod Commands
pub mod Events
pub mod Errors
pub mod Board
pub mod Decider
pub mod Store
pub mod Simulation
pub mod Ports
pub mod Service
pub mod Server
pub mod UserData
pub mod Network
pub mod Client
pub mod Redpanda
pub mod Session
mod Tests
