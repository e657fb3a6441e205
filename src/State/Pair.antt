-- ===== src/State/Pair.antt =====
-- store/src/state.rs: `PlayerPair`, which finds a player's symbol, opponent and name by id.
use tic_tac_tussle.Base.{
  String, Option, none, some, ◌≡◌, ◌≢◌, ◌↔◌, ◌⊎◌, ◌==◌, is_some, true, if◌then◌else◌, arith,
}
use tic_tac_tussle.State.{PlayerId, Symbol}

pub record PlayerPair : Type 0 where
  pub x : PlayerId × String
  pub o : PlayerId × String

-- `PlayerPair::new`
unfoldable pub new : PlayerId → String → PlayerId → String → PlayerPair
new p p_name q q_name = record { x = (p, p_name); o = (q, q_name) }

unfoldable pub opponent_of : PlayerPair → PlayerId → PlayerId
opponent_of pair id = if pair.x.0 == id then pair.o.0 else pair.x.0

unfoldable pub symbol_of : PlayerPair → PlayerId → Symbol
symbol_of pair id = if pair.x.0 == id then Symbol.x else Symbol.o

unfoldable pub name_of : PlayerPair → PlayerId → Option String
name_of pair id =
    if pair.x.0 == id then some pair.x.1 else if pair.o.0 == id then some pair.o.1 else none

-- In a pair of two different players, `opponent_of` swaps the two members, and the opponent plays
-- the other symbol.
pub opponent_lem :
    (pair : PlayerPair) (id : PlayerId)
    → pair.x.0 ≢ pair.o.0
    → ((id ≡ pair.x.0) ⊎ (id ≡ pair.o.0))
    → (opponent_of pair id ≢ id)
      × (opponent_of pair (opponent_of pair id) ≡ id)
      × (symbol_of pair (opponent_of pair id) ≢ symbol_of pair id)
unfolding opponent_of symbol_of
opponent_lem pair id ne mem = ground arith

-- A name is found exactly for the two members.
pub name_of-member :
    (pair : PlayerPair) (id : PlayerId)
    → (is_some (name_of pair id) ≡ true) ↔ ((id ≡ pair.x.0) ⊎ (id ≡ pair.o.0))
unfolding name_of
name_of-member pair id = ground arith
