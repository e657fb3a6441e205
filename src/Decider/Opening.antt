-- ===== src/Decider/Opening.antt =====
-- store/src/decider.rs: how a game opens, with the joins of two players.
use tic_tac_tussle.Base.{◌≡◌, ◌≢◌, refl, some, List, [], ◌∷◌, String, ok, arith}
use tic_tac_tussle.State.{PlayerId, GameState, default, in_game}
use tic_tac_tussle.Commands.{join_game}
use tic_tac_tussle.Events.{GameEvent, player_joined, game_started}
use tic_tac_tussle.Decider.{hydrate, decide, evolve, fold_events}

pub hydrate-none : hydrate [] ≡ some default
unfolding hydrate fold_events
hydrate-none = refl

-- The state of the lobby in which `p` waits.
abbrev pub alone : PlayerId → GameState
alone p = record default { players = (p, 0) }

-- The state in which `p` and `q` begin.
abbrev pub playing : PlayerId → PlayerId → GameState
playing p q = record default { stage = in_game; active_player_id = p; players = (p, q) }

abbrev pub one_joined : PlayerId → String → List GameEvent
one_joined p name = player_joined p name ∷ []

-- The second join, and the start that follows from it.
abbrev pub second_join : PlayerId → PlayerId → String → List GameEvent
second_join p q other = player_joined q other ∷ game_started p ∷ []

abbrev pub opening : PlayerId → PlayerId → String → String → List GameEvent
opening p q name other = player_joined p name ∷ second_join p q other

module _ (p q : PlayerId) (name other : String) (there : p ≢ 0) where
  pub hydrate-one : hydrate (one_joined p name) ≡ some (alone p)
  unfolding hydrate fold_events evolve default
  hydrate-one = refl

  pub first_joins : decide default (join_game p name) ≡ ok (one_joined p name)
  unfolding decide default
  first_joins = ground arith

  module _ (here : q ≢ 0) where
    pub hydrate-opening : hydrate (opening p q name other) ≡ some (playing p q)
    unfolding hydrate fold_events evolve default
    hydrate-opening = ground arith

    pub second_joins : p ≢ q → decide (alone p) (join_game q other) ≡ ok (second_join p q other)
    unfolding decide default
    second_joins apart = ground arith
