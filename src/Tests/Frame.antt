-- ===== src/Tests/Frame.antt =====
-- A client that connects again and receives the log of a game after its first move in one frame. No
-- number or colour matters here.
use tic_tac_tussle.Base.{none, some, List, [], ◌∷◌, ◌++◌, ◌≡◌, refl}
use tic_tac_tussle.Base.Int.{pos}
use tic_tac_tussle.Base.Vec
use tic_tac_tussle.State.{in_game, GameState}
use tic_tac_tussle.Decider.{hydrate, evolve}
use tic_tac_tussle.Client.Screen.{Float}
use tic_tac_tussle.Client.Display.{Palette, Piece}
use tic_tac_tussle.Client.Frame.{App, run_systems, pair_system, pieces_system}
use tic_tac_tussle.Client.Frame.Order.{texts, pieces_order}
use tic_tac_tussle.Tests.Data.{blank, cross, grid, first_move, first_move-IsHistory}

abbrev pub float : Float (Unit {0})
float = record {
  of = λ n. tt;
  decimal = λ n k. tt;
  neg = λ x. tt;
  add = λ x y. tt;
  sub = λ x y. tt;
  mul = λ x y. tt;
  div = λ x y. tt;
  floor_as_isize = λ x. pos 0;
}

abbrev pub palette : Palette (Unit {0}) (Unit {0})
palette = record { srgb_u8 = λ r g b. tt; white = tt; transparent = tt; set_alpha = λ a k. tt }

abbrev after_first : GameState
after_first = record {
  stage = in_game;
  board = grid blank blank blank blank cross blank blank blank blank;
  active_player_id = 2;
  players = (1, 2);
}

first_move-hydrate : hydrate first_move ≡ some after_first
unfolding hydrate evolve Vec.set Vec.replicate
first_move-hydrate = refl

abbrev back : App (Unit {0}) (Unit {0})
back = record {
  client = record {
    local_player_id = some 1;
    received_events = first_move;
    maybe_pair = none;
    state = after_first;
    written = first_move;
    outbox = [];
  };
  pieces = [];
  pieces_read = 0;
  scene = record { grid_lines = []; hover_cells = [] };
  status = none;
  status_read = 0;
}

pieces_order_example :
    ((early : App (Unit {0}) (Unit {0})) × (spawned : List (Piece (Unit {0}) (Unit {0})))
      × (run_systems (pieces_system float palette ∷ pair_system ∷ []) back ≡ some early)
      × (early.pieces ≡ [] ++ spawned)
      × (texts float palette spawned ≡ "?" ∷ []))
    × ((late : App (Unit {0}) (Unit {0})) × (spawned : List (Piece (Unit {0}) (Unit {0})))
        × (run_systems (pair_system ∷ pieces_system float palette ∷ []) back ≡ some late)
        × (late.pieces ≡ [] ++ spawned)
        × (texts float palette spawned ≡ "X" ∷ []))
pieces_order_example =
    pieces_order float palette back after_first first_move-IsHistory first_move-hydrate (λ h. cc)
      refl
