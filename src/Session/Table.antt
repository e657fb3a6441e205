-- ===== src/Session/Table.antt =====
-- server/src/main.rs and client/src/main.rs together: a server and the frames of several clients,
-- in any order.
use mathlib.Core.List
use tic_tac_tussle.Base.{
  ℕ, ◌≡◌, ◌≢◌, sym, subst, true, List, ◌++◌, Bytes, Option, some, String, ◌==◌, if◌then◌else◌,
  arith, ℕ_discrete,
}
use tic_tac_tussle.State.{GameId}
use tic_tac_tussle.Commands.{Stamp, GameCommand}
use tic_tac_tussle.Events.{GameEvent}
use tic_tac_tussle.Ports.{EventPublisher, Anyhow}
use tic_tac_tussle.Server.{Server}
use tic_tac_tussle.Server.Main.{Round, main_loop}
use tic_tac_tussle.Server.Runs.{Each}
use tic_tac_tussle.Network.{Codec, Renet, renet_broadcaster}
use tic_tac_tussle.Network.Sessions.{Elsewhere}
use tic_tac_tussle.Client.Screen.{Float}
use tic_tac_tussle.Client.Display.{Palette}
use tic_tac_tussle.Client.Frame.{App, Inputs, System, update_systems, frame}
use tic_tac_tussle.Session
use tic_tac_tussle.Session.{World, rounds, client_frame, start, step}

-- A client, and the messages that it has received.
pub record Seat (F K : Type 0) : Type 0 where
  pub app : App F K
  pub taken : List Bytes

-- The server, and the client that has an id.
pub record Table (P N F K : Type 0) : Type 0 where
  pub server : Server P N
  pub seats : ℕ → Seat F K

abbrev pub replace : {F K : Type 0} → ℕ → Seat F K → (ℕ → Seat F K) → ℕ → Seat F K
replace d seat seats id = if d == id then seat else seats id

replace_same :
    {F K : Type 0} (d : ℕ) (seat : Seat F K) (seats : ℕ → Seat F K) → replace d seat seats d ≡ seat
replace_same d seat seats = ground arith

replace_other :
    {F K : Type 0} (d id : ℕ) (seat : Seat F K) (seats : ℕ → Seat F K)
    → d ≢ id
    → replace d seat seats id ≡ seats id
replace_other d id seat seats h = ground arith

module _ {E P N F K : Type 0} (any : Anyhow E) (codec : Codec E GameEvent) (renet : Renet N)
    (port : EventPublisher E P) (stamps : ℕ → Stamp) (name_of : ℕ → String)
    (decode : Bytes → Option GameCommand) (game_id : GameId) (float : Float F)
    (palette : Palette F K) (commands : Codec E GameCommand) (username : ℕ → String)
    (Present : ℕ → Type 0) where
  -- The network's state on the server.
  abbrev network : Table P N F K → N
  network t = t.server.service.broadcaster

  pub data Turn (t : Table P N F K) : Table P N F K → Type 0 where
    -- Rounds of the server in which no client that is present connects again.
    server_turn :
        (l : List (Round E N))
        → ((id : ℕ) → Present id → Each (Elsewhere any codec renet port stamps id) l)
        → Turn t (record t {
          server =
              (main_loop any port
                (renet_broadcaster any codec renet)
                stamps
                name_of
                decode
                game_id
                l
                t.server).1;
        })
    -- A frame of a client, while it is connected.
    client_turn :
        (id : ℕ) (i : Inputs F) {order : List (System F K)} (later : List Bytes) {app : App F K}
        → Present id
        → List.Permᴰ order (update_systems float palette commands codec id (username id) i)
        → renet.is_connected (network t) id ≡ true
        → renet.sent (network t) id ≡ (t.seats id).taken ++ (i.received ++ later)
        → frame float palette commands codec id (username id) order i (t.seats id).app ≡ some app
        → Turn t (record t {
          seats =
              replace id (record { app = app; taken = (t.seats id).taken ++ i.received }) t.seats;
        })

  pub data Play (first : Table P N F K) : Table P N F K → Type 0 where
    begin : Play first first
    turn : {t u : Table P N F K} → Play first t → Turn t u → Play first u

  -- What one of the clients has to do with.
  abbrev pub view : ℕ → Table P N F K → World P N F K
  view id t = record { server = t.server; app = (t.seats id).app; taken = (t.seats id).taken }

  abbrev Reaches : ℕ → World P N F K → World P N F K → Type 0
  Reaches id =
      Session.Reach any codec renet port stamps name_of decode game_id float palette commands
        (username id) id

  -- A turn is a step for the client whose frame it is, and nothing for the others.
  Turn-view :
      (first t u : Table P N F K) (id : ℕ)
      → Present id
      → Turn t u
      → Reaches id (view id first) (view id t)
      → Reaches id (view id first) (view id u)
  Turn-view first t u id here (server_turn l each) past = step past (rounds l (each id here))
  Turn-view first t u id here (client_turn d i {order} later {app} p order_ok on sent run) past =
      let seat : Seat F K = record { app = app; taken = (t.seats d).taken ++ i.received } in
      let shown = λ (k : ℕ) (x : Seat F K).
        Reaches k (view k first) (record { server = t.server; app = x.app; taken = x.taken }) in
      elim (ℕ_discrete d id) [
        | no other ↦ subst (shown id) (sym (replace_other d id seat t.seats other)) past
        | yes same ↦
            let own = subst (λ k. shown k (t.seats k)) (sym same) past in
            subst (λ k. shown k (replace d seat t.seats k)) same
              (subst (shown d) (sym (replace_same d seat t.seats))
                (step own (client_frame i later order_ok on sent run)))
      ]

  pub Play-view :
      {first t : Table P N F K} (id : ℕ)
      → Present id
      → Play first t
      → Reaches id (view id first) (view id t)
  Play-view id here begin = start
  Play-view {first} id here (turn {t = t} {u = u} past next) =
      Turn-view first t u id here next (Play-view id here past)
