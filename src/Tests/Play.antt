-- ===== src/Tests/Play.antt =====
-- The theorems on the progress of a game, at a game that has begun.
use tic_tac_tussle.Base.{ℕ, suc, ◌≡◌, refl, some, not, false}
use tic_tac_tussle.Base.Vec.{Vec, nil, cons, get_elem?, all}
use tic_tac_tussle.Base.Vec.Laws.{lt-get_elem?}
use tic_tac_tussle.Board.{is_full}
use tic_tac_tussle.State.{Tile, empty, occupied, eq_tile, ended, GameState}
use tic_tac_tussle.Decider.Invariant.{IsValid}
use tic_tac_tussle.Decider.{hydrate}
use tic_tac_tussle.Decider.Progress.{IsStrategy}
use tic_tac_tussle.Store.{events}
use tic_tac_tussle.Ports.Doubles.{noop_publisher, noop_broadcaster}
use tic_tac_tussle.Service.{GameService}
use tic_tac_tussle.Service.Handle.{IsGood}
use tic_tac_tussle.Service.Play.{turns, handle_turns}
use tic_tac_tussle.Tests.Data.{started}
use tic_tac_tussle.Tests.Session.{
  Failure, failures, stamps, joined_store, joined_store-IsGood, joined_hydrates,
}

-- The players take the first empty tile.
abbrev first_empty : {n : ℕ} → Vec Tile n → ℕ
first_empty nil = 0
first_empty (cons empty v) = 0
first_empty (cons (occupied s) v) = suc (first_empty v)

first_empty_lem :
    {n : ℕ} (v : Vec Tile n)
    → all (λ t. not (eq_tile t empty)) v ≡ false
    → get_elem? v (first_empty v) ≡ some empty
unfolding all get_elem?
first_empty_lem nil h = cc
first_empty_lem (cons empty v) h = refl
first_empty_lem (cons (occupied s) v) h = first_empty_lem v h

abbrev choose : GameState → ℕ
choose s = first_empty s.board

choose-IsStrategy : IsStrategy choose
unfolding is_full
choose-IsStrategy s v h =
    let e = first_empty_lem s.board (v.unfilled h) in (h, refl, lt-get_elem? s.board _ e, e)

-- Alice and Bob have joined.
abbrev in_play : GameService (Unit {0}) (Unit {0})
in_play = record { store = joined_store; publisher = tt; broadcaster = tt }

handle_turns_example :
    let after =
      (turns failures
        (noop_publisher {E = Failure})
        noop_broadcaster
        stamps
        stamps
        choose
        9
        in_play).store in
    IsGood after
    × ((u : GameState) × (hydrate (events after) ≡ some u) × (u.stage ≡ ended) × IsValid u)
handle_turns_example =
    handle_turns failures noop_publisher noop_broadcaster stamps stamps choose choose-IsStrategy
      in_play started joined_store-IsGood joined_hydrates (λ h. cc)
