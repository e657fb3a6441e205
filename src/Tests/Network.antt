-- ===== src/Tests/Network.antt =====
-- The theorems on the network and the client, in the session of Alice (1) and Bob (2).
use mathlib.Core.List.Memᴰ
use tic_tac_tussle.Base.{
  ◌+◌, ◌-◌, ◌*◌, ◌/◌, ◌^◌, ℕ, List, [], ◌∷◌, ◌≡◌, ◌≢◌, ◌↔◌, refl, some, none, ok, panic, true, map,
}
use tic_tac_tussle.Base.Vec
use tic_tac_tussle.State.{PlayerId, default}
use tic_tac_tussle.State.Pair.{PlayerPair, symbol_of}
use tic_tac_tussle.Commands.{GameCommand, place_tile}
use tic_tac_tussle.Events.{GameEvent, player_joined, game_started}
use tic_tac_tussle.Decider.Branches.{symbol_for}
use tic_tac_tussle.Store.{events}
use tic_tac_tussle.Ports.Doubles.{Captured, capturing_publisher}
use tic_tac_tussle.Service.{GameService}
use tic_tac_tussle.Server.{Server, ServerEvent, client_connected, handle_connections}
use tic_tac_tussle.Server.Starting.{Holds}
use tic_tac_tussle.Decider.History.{fresh}
use tic_tac_tussle.Network.Sending.{HasSent}
use tic_tac_tussle.Network.Overlap.{overlap_lem}
use tic_tac_tussle.Commands.{Stamp}
use tic_tac_tussle.Network.{renet_broadcaster}
use tic_tac_tussle.Network.Rounds.{IsInStep}
use tic_tac_tussle.Client.{Client, update_pair}
use tic_tac_tussle.Base.Int.{pos}
use tic_tac_tussle.Client.Screen.{Float, Window}
use tic_tac_tussle.Client.Input.{Sends, clicked, clicked_lem}
use tic_tac_tussle.Client.Replay.{after}
use tic_tac_tussle.Client.Status.{name_or_opponent}
use tic_tac_tussle.Client.Names.{name_or_opponent-joined}
use tic_tac_tussle.Client.Players.{update_pair_lem}
use tic_tac_tussle.Tests.Data.{joins, started, joins-hydrate, joins-IsHistory}
use tic_tac_tussle.Tests.Wire.{codec, network, Queues, encode, decode-encode_all}
use tic_tac_tussle.Tests.Session.{stamps, joined_store, joined_store-IsGood, failures, captures}

-- Both have been sent the log.
abbrev session : GameService Captured Queues
session = record {
  store = joined_store;
  publisher = record { published = []; commands = [] };
  broadcaster = λ c. map encode joins;
}

session-IsInStep : IsInStep failures codec network capturing_publisher stamps 1 session
unfolding events
session-IsInStep = (joined_store-IsGood, λ on. decode-encode_all joins)

-- Alice's client: nothing received so far, or everything.
abbrev blank : Client
blank = record {
  local_player_id = some 1;
  received_events = [];
  maybe_pair = none;
  state = default;
  written = [];
  outbox = [];
}

abbrev ready : Client
ready = after blank started joins

-- Whole numbers in place of the floating point numbers.
abbrev float : Float ℕ
float = record {
  of = λ n. n;
  decimal = λ n k. n / 10 ^ k;
  neg = λ n. 0;
  add = ◌+◌;
  sub = ◌-◌;
  mul = ◌*◌;
  div = ◌/◌;
  floor_as_isize = pos;
}

-- The cursor in the cell 5.
abbrev window : Window ℕ
window = record { width = 480; height = 540; cursor_position = some (400, 300) }

click : clicked float (some window) true ready ≡ ok (place_tile 1 5)
unfolding clicked Vec.get_elem? Vec.replicate
click = refl

clicked_lem_example :
    ((cmd : GameCommand)
      → (clicked float (some window) true ready ≡ ok cmd) ↔ (
          (my_id : PlayerId) × (at : ℕ) × (cmd ≡ place_tile my_id at)
          × Sends float window true ready my_id at))
    × (clicked float (some window) true ready ≢ panic)
clicked_lem_example = clicked_lem float window true ready

update_pair_lem_example :
    (pair : PlayerPair) × ((update_pair ready).maybe_pair ≡ some pair)
    × (pair.x.0 ≡ 1)
    × (pair.o.0 ≡ 2)
    × ((p : PlayerId) → symbol_of pair p ≡ symbol_for started p)
update_pair_lem_example = update_pair_lem ready started joins-IsHistory joins-hydrate (λ h. cc) refl

name_or_opponent-joined_example : name_or_opponent (update_pair ready) 2 ≡ "Bob"
name_or_opponent-joined_example =
    name_or_opponent-joined ready started 2 "Bob" joins-IsHistory joins-hydrate (λ h. cc) refl
      (Memᴰ.tail (Memᴰ.head refl))

-- Two clients that connect in one round: the first join is broadcast to both, and sent again to the
-- second by its catch-up, so that the second counts three joins and never finds its pair.
abbrev crowd : List (Stamp × ServerEvent)
crowd = (stamps 50, client_connected 1) ∷ (stamps 51, client_connected 2) ∷ []

abbrev empty_server : Server Captured Queues
empty_server = record {
  service = record {
    store = record { game_id = 5; log = [] };
    publisher = record { published = []; commands = [] };
    broadcaster = λ c. [];
  };
  acked = [];
}

abbrev to_second : List GameEvent
to_second = player_joined 1 "P" ∷ player_joined 1 "P" ∷ player_joined 2 "P" ∷ game_started 1 ∷ []

empty_server-Holds : Holds 5 [] empty_server.service
unfolding events
empty_server-Holds = (refl, record { numbered = tt; history = fresh }, refl)

overlap_lem_example :
    let (run, after) =
      handle_connections failures capturing_publisher
        (renet_broadcaster failures codec network)
        stamps
        (λ n. "P")
        5
        crowd
        empty_server.service in
    (run ≡ ok tt)
    × (events after.store ≡ player_joined 1 "P" ∷ player_joined 2 "P" ∷ game_started 1 ∷ [])
    × HasSent failures codec network after.broadcaster 2 to_second
    × ((update_pair (record blank { received_events = to_second })).maybe_pair ≡ none)
overlap_lem_example =
    overlap_lem failures codec network capturing_publisher stamps captures 2 5 (λ n. "P") 1
      (λ h. cc) (λ h. cc) (λ h. cc) empty_server.service (stamps 50) (stamps 51) blank
      empty_server-Holds refl refl
