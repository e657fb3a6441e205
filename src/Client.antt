-- ===== src/Client.antt =====
-- client/src/main.rs: the client's resources, and its systems.
pub mod Screen
pub mod Grid
pub mod Bar
pub mod Names
pub mod Input
pub mod Display
pub mod Highlight
pub mod Pieces
pub mod Status
pub mod Replay
pub mod Players
pub mod Frame
use tic_tac_tussle.Base.{
  ℕ, Option, none, some, List, [], ◌∷◌, ◌++◌, Bytes, Outcome, ok, err, panic, String,
}
use tic_tac_tussle.State.{PlayerId, GameState, default}
use tic_tac_tussle.State.Pair
use tic_tac_tussle.State.Pair.{PlayerPair}
use tic_tac_tussle.Commands.{GameCommand, join_game}
use tic_tac_tussle.Events.{GameEvent, player_joined}
use tic_tac_tussle.Decider.{evolve}
use tic_tac_tussle.Network.{Codec}

-- The resources, the Bevy messages written so far, and the messages sent to the server.
pub record Client : Type 0 where
  pub local_player_id : Option PlayerId
  pub received_events : List GameEvent
  pub maybe_pair : Option PlayerPair
  pub state : GameState
  pub written : List GameEvent
  pub outbox : List Bytes

-- The resources that `main` inserts.
unfoldable pub new : Client
new = record {
  local_player_id = none;
  received_events = [];
  maybe_pair = none;
  state = default;
  written = [];
  outbox = [];
}

module _ {E : Type 0} (commands : Codec E GameCommand) where
  -- `encode_to_vec(..).expect(..)` and `client.send_message`; `none` is the panic.
  unfoldable pub send : GameCommand → Client → Option Client
  send cmd c = elim (commands.encode_to_vec cmd) [
    | ok bytes ↦ some (record c { outbox = c.outbox ++ bytes ∷ [] })
    | err e ↦ none
    | panic ↦ none
  ]

  -- `set_local_player_id`: `client_id` is the transport's.
  unfoldable pub set_local_player_id : ℕ → String → Client → Option Client
  unfolding send
  set_local_player_id client_id username c = elim c.local_player_id [
    | none ↦ send (join_game client_id username) (record c { local_player_id = some client_id })
    | some id ↦ some c
  ]

module _ {E : Type 0} (codec : Codec E GameEvent) where
  -- The arms of the `match` on a decoded message.
  unfoldable pub on_event : Option GameEvent → Client → Option Client
  on_event none c = some c
  on_event (some event) c = elim (evolve c.state event) [
    | none ↦ none
    | some state ↦ some (record c {
      state = state;
      received_events = c.received_events ++ event ∷ [];
      written = c.written ++ event ∷ [];
    })
  ]

  -- `receive_server_events`, over the messages that have come in; `none` is the panic of `evolve`.
  unfoldable pub receive_server_events : List Bytes → Client → Option Client
  unfolding on_event
  receive_server_events [] c = some c
  receive_server_events (raw ∷ rest) c = elim (on_event (codec.decode_from_slice raw) c) [
    | none ↦ none
    | some d ↦ receive_server_events rest d
  ]

-- The `filter_map` of `update_pair`.
unfoldable pub joins : List GameEvent → List (PlayerId × String)
joins [] = []
joins (player_joined p name ∷ l) = (p, name) ∷ joins l
joins (_ ∷ l) = joins l

-- The pair of exactly two players.
unfoldable pub pair_of : List (PlayerId × String) → Option PlayerPair
pair_of ((p, p_name) ∷ ((q, q_name) ∷ [])) = some (Pair.new p p_name q q_name)
pair_of _ = none

-- `update_pair`
unfoldable pub update_pair : Client → Client
unfolding joins pair_of
update_pair c = elim c.maybe_pair [
  | some pair ↦ c
  | none ↦ record c { maybe_pair = pair_of (joins c.received_events) }
]
