-- ===== src/Tests/Source/States.antt =====
-- The tests of store/src/state.rs and store/src/commands.rs; two new random ids are not compared.
use tic_tac_tussle.Base.{ℕ, ◌≡◌, refl, some, none, [], ◌∷◌, ok, ◌>>◌, ◌==◌, panic}
use tic_tac_tussle.State.{Symbol, eq_symbol}
use tic_tac_tussle.State.Pair
use tic_tac_tussle.State.Pair.{PlayerPair, symbol_of, opponent_of, name_of}
use tic_tac_tussle.Commands
use tic_tac_tussle.Commands.{Stamp, CommandEnvelope, GameCommand, join_game}
use tic_tac_tussle.Tests.Source.{Test, assert, run_all}

abbrev pair : PlayerPair
pair = Pair.new 1 "Alice" 2 "Bob"

abbrev player_pair_symbol_lookup : Test
player_pair_symbol_lookup = do
  assert (eq_symbol (symbol_of pair 1) Symbol.x)
  assert (eq_symbol (symbol_of pair 2) Symbol.o)

abbrev player_pair_opponent_lookup : Test
player_pair_opponent_lookup = do assert (opponent_of pair 1 == 2); assert (opponent_of pair 2 == 1)

abbrev is_join_of : ℕ → GameCommand → Test
is_join_of p (join_game q name) = assert (q == p)
is_join_of p _ = panic

abbrev envelope_creation : Stamp → ℕ → Test
envelope_creation stamp gid =
    let env = Commands.new stamp gid (join_game 123 "Tester") in
    do assert (env.game_id == gid); is_join_of 123 env.command

-- They pass, the last for one id.
states_pass :
    (stamp : Stamp)
    → run_all
        (player_pair_symbol_lookup ∷ player_pair_opponent_lookup ∷ envelope_creation stamp 5 ∷ [])
      ≡ ok tt
unfolding symbol_of opponent_of Pair.new Commands.new
states_pass stamp = refl

-- `player_pair_name_lookup`
names_found :
    (name_of pair 1 ≡ some "Alice") × (name_of pair 2 ≡ some "Bob") × (name_of pair 3 ≡ none)
unfolding name_of Pair.new
names_found = (refl, refl, refl)
