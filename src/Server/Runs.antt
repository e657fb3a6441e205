-- ===== src/Server/Runs.antt =====
-- server/src/main.rs: what holds after any number of rounds.
use tic_tac_tussle.Base.{
  ℕ, ◌<◌, ◌≤◌, ◌≡◌, refl, sym, ◌∙◌, some, Option, List, [], ◌∷◌, append-nil, Bytes, String, length,
}
use tic_tac_tussle.State.{GameId, GameState, in_game}
use tic_tac_tussle.Commands.{Stamp, GameCommand}
use tic_tac_tussle.Store.{EventStore, events}
use tic_tac_tussle.Decider.{hydrate}
use tic_tac_tussle.Decider.History.{fresh}
use tic_tac_tussle.Decider.Game.{moves}
use tic_tac_tussle.Decider.Progress.{moves_bound}
use tic_tac_tussle.Ports.{EventPublisher, NetworkBroadcaster, Anyhow}
use tic_tac_tussle.Service.{◌>>◌}
use tic_tac_tussle.Service.Handle.{IsGood}
use tic_tac_tussle.Service.Preserves.{Preserves, bind-Preserves, pure-Preserves}
use tic_tac_tussle.Server.{Server, tick}
use tic_tac_tussle.Server.Loop.{Grows, Grows-trans, tick-IsGood}
use tic_tac_tussle.Server.Main.{Round, start, transport_update, send_packets, round, main_loop}

start-IsGood :
    {P N : Type 0} (p : P) (n : N) (game_id : GameId) → IsGood (start p n game_id).service.store
unfolding start events
start-IsGood p n game_id = record { numbered = tt; history = fresh }

-- All rounds of the list are allowed.
abbrev pub Each : {E N : Type 0} → (Round E N → Type 0) → List (Round E N) → Type 0
Each Allowed [] = Unit {0}
Each Allowed (r ∷ rest) = Allowed r × Each Allowed rest

start-game_id :
    {P N : Type 0} (p : P) (n : N) (game_id : GameId)
    → (start p n game_id).service.store.game_id ≡ game_id
unfolding start
start-game_id p n game_id = refl

module _ {E P N : Type 0} (any : Anyhow E) (port : EventPublisher E P)
    (net : NetworkBroadcaster E N) (stamps : ℕ → Stamp) (name_of : ℕ → String)
    (decode : Bytes → Option GameCommand) (game_id : GameId) where
  -- An invariant of the server that the three parts of a round keep is kept by every round.
  module _ (Inv : Server P N → Type 0) (Allowed : Round E N → Type 0)
      (updates : (r : Round E N)
        → Allowed r
        → Preserves Inv (transport_update any port net stamps r))
      (ticks : (r : Round E N)
        → Allowed r
        → Preserves Inv (tick any port net stamps name_of decode game_id r.inputs))
      (sends : (r : Round E N)
        → Allowed r
        → Preserves Inv (send_packets any port net stamps r)) where
    pub main_loop-Preserves :
        (l : List (Round E N))
        → Each Allowed l
        → Preserves Inv (main_loop any port net stamps name_of decode game_id l)
    unfolding main_loop round
    main_loop-Preserves [] a = pure-Preserves Inv
    main_loop-Preserves (r ∷ rest) (a, each) =
        bind-Preserves Inv (round any port net stamps name_of decode game_id r)
          (λ u. main_loop any port net stamps name_of decode game_id rest)
          (bind-Preserves Inv (transport_update any port net stamps r)
            (λ u.
              tick any port net stamps name_of decode game_id r.inputs
              >> send_packets any port net stamps r)
            (updates r a)
            (λ u.
              bind-Preserves Inv (tick any port net stamps name_of decode game_id r.inputs)
                (λ u. send_packets any port net stamps r) (ticks r a) (λ u. sends r a)))
          (λ u. main_loop-Preserves rest each)

  -- The servers whose logs go on from this one's.
  abbrev pub GoesOn : EventStore → Server P N → Type 0
  GoesOn s t = Grows s t.service.store

  -- Whatever happens in a round.
  abbrev Anything : Round E N → Type 0
  Anything r = Unit {0}

  pub main_loop-GoesOn :
      (s : EventStore) (l : List (Round E N))
      → Preserves (GoesOn s) (main_loop any port net stamps name_of decode game_id l)
  main_loop-GoesOn s l =
      main_loop-Preserves (GoesOn s) Anything (λ r a. record { apply = λ t h. h })
        (λ r a. record {
          apply = λ t h.
              Grows-trans s t.service.store _ h
                (tick-IsGood any port net stamps name_of decode game_id r.inputs t h.0);
        })
        (λ r a. record { apply = λ t h. h }) l (all_allowed l)
    where
      all_allowed : (l : List (Round E N)) → Each Anything l
      all_allowed [] = tt
      all_allowed (r ∷ rest) = (tt, all_allowed rest)

  -- After any number of rounds of the server that `main` starts, whatever came in and whatever
  -- failed, its log is that of a game under the id of `main`: its sequence numbers are its indices,
  -- it hydrates to a state, and it has at most nine moves, and fewer while the game is in play.
  pub main_loop_lem :
      (p : P) (n : N) (l : List (Round E N))
      → let store =
          (main_loop any port net stamps name_of decode game_id l
            (start p n game_id)).1.service.store in
        IsGood store
        × (store.game_id ≡ game_id)
        × ((s : GameState) × (hydrate (events store) ≡ some s)
            × (length (moves (events store)) ≤ 9)
            × (s.stage ≡ in_game → length (moves (events store)) < 9))
  main_loop_lem p n l =
      let first = (start p n game_id).service.store in
      let (good, same, more) =
        (main_loop-GoesOn first l).apply (start p n game_id)
          (start-IsGood p n game_id, refl, ([], sym (append-nil first.log))) in
      (good, same ∙ start-game_id p n game_id, moves_bound good.history)
