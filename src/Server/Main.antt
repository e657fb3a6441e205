-- ===== src/Server/Main.antt =====
-- server/src/main.rs: `main`, from the service it builds to the rounds of its loop. What the
-- transport does to the network's state is handed in with each round.
use tic_tac_tussle.Base.{ℕ, Option, List, [], ◌∷◌, Bytes, ok, String}
use tic_tac_tussle.State.{GameId}
use tic_tac_tussle.Commands.{Stamp, GameCommand}
use tic_tac_tussle.Store
use tic_tac_tussle.Ports.{Action, EventPublisher, NetworkBroadcaster, Anyhow}
use tic_tac_tussle.Service.{pure, ◌>>◌, map_err}
use tic_tac_tussle.Service.Builder.{builder, set_store, set_publisher, set_broadcaster, build}
use tic_tac_tussle.Server.{Inputs, Server, tick}

-- The service that `main` starts with, for a new game.
unfoldable pub start : {P N : Type 0} → P → N → GameId → Server P N
unfolding builder set_store set_publisher set_broadcaster build Store.new
start publisher broadcaster game_id = record {
  service = build (
      set_broadcaster broadcaster
        (set_publisher publisher (set_store (Store.new game_id) builder)));
  acked = [];
}

-- A round: what `transport.update` makes of the network, what then comes in, and what
-- `transport.send_packets` does.
pub record Round (E N : Type 0) : Type 0 where
  pub update : Action E N (Unit {0})
  pub inputs : Inputs
  pub send_packets : N → N

-- A step on the network is a step on the server.
abbrev pub on_network : {E P N : Type 0} → Action E N (Unit {0}) → Action E (Server P N) (Unit {0})
on_network m s =
    let (r, n) = m s.service.broadcaster in
    (r, record s { service = record (s.service) { broadcaster = n } })

module _ {E P N : Type 0} (any : Anyhow E) (port : EventPublisher E P)
    (net : NetworkBroadcaster E N) (stamps : ℕ → Stamp) where
  -- `transport.update(..).context("transport update")?`
  abbrev pub transport_update : Round E N → Action E (Server P N) (Unit {0})
  transport_update r =
      on_network λ n. let (u, m) = r.update n in (map_err (any.context "transport update") u, m)

  -- `transport.send_packets`
  abbrev pub send_packets : Round E N → Action E (Server P N) (Unit {0})
  send_packets r = on_network λ n. (ok tt, r.send_packets n)

  -- The body of the loop.
  unfoldable pub round :
      (ℕ → String)
      → (Bytes → Option GameCommand)
      → GameId
      → Round E N
      → Action E (Server P N) (Unit {0})
  unfolding tick
  round name_of decode game_id r = do
    transport_update r
    tick any port net stamps name_of decode game_id r.inputs
    send_packets r

  -- The loop of `main` over the rounds so far. An error of the transport ends it, as a panic does.
  unfoldable pub main_loop :
      (ℕ → String)
      → (Bytes → Option GameCommand)
      → GameId
      → List (Round E N)
      → Action E (Server P N) (Unit {0})
  unfolding round
  main_loop name_of decode game_id [] = pure tt
  main_loop name_of decode game_id (r ∷ rest) = do
    round name_of decode game_id r
    main_loop name_of decode game_id rest
