-- ===== src/Decider/Invariant.antt =====
-- store/src/decider.rs: what holds of every state that accepted commands lead to.
use tic_tac_tussle.Base.{
  ℕ, suc, ◌≡◌, ◌≢◌, ◌⊎◌, false, none, some, List, ok, if◌then◌else◌, arith, refl, String,
}
use tic_tac_tussle.Base.Vec.{count, get_elem?, set, all, replicate}
use tic_tac_tussle.State.{
  PlayerId, Symbol, empty, occupied, eq_tile, eq_symbol, default, lobby, in_game, Board, GameState,
}
use tic_tac_tussle.Commands.{GameCommand, join_game, place_tile, leave_game}
use tic_tac_tussle.Board.{winning_symbol, is_full}
use tic_tac_tussle.Base.Vec.Laws.{count-set}
use tic_tac_tussle.Events.{GameEvent}
use tic_tac_tussle.Decider.{decide}
use tic_tac_tussle.Decider.Branches.{CanJoin, IsLegal, symbol_for, decide-join, decide-place}
use tic_tac_tussle.Decider.Result.{result_state}

-- How many tiles carry a symbol.
abbrev pub marks : Symbol → Board → ℕ
marks s b = count (λ t. eq_tile t (occupied s)) b

abbrev pub vacant : Board → ℕ
vacant b = count (λ t. eq_tile t empty) b

-- X is to move when both have placed as many tiles, O when X is one ahead.
abbrev pub IsBalanced : GameState → Type 0
IsBalanced s =
    ((s.active_player_id ≡ s.players.0) × (marks Symbol.x s.board ≡ marks Symbol.o s.board))
    ⊎ ((s.active_player_id ≡ s.players.1) × (marks Symbol.x s.board ≡ suc (marks Symbol.o s.board)))

pub record IsValid (s : GameState) : Type 0 where
  pub lobby_open : s.stage ≡ lobby → s.players.1 ≡ 0
  pub lobby_blank : s.stage ≡ lobby → s.board ≡ replicate 9 empty
  pub first_seated : s.stage ≢ lobby → s.players.0 ≢ 0
  pub second_seated : s.stage ≢ lobby → s.players.1 ≢ 0
  pub distinct : s.stage ≢ lobby → s.players.0 ≢ s.players.1
  pub balanced : s.stage ≢ lobby → IsBalanced s
  pub undecided : s.stage ≡ in_game → winning_symbol s.board ≡ none
  pub unfilled : s.stage ≡ in_game → is_full s.board ≡ false

blank_marks : (s : Symbol) → marks s (replicate 9 empty) ≡ 0
unfolding count replicate
blank_marks s = refl

blank_open : is_full (replicate 9 empty) ≡ false
unfolding is_full all replicate
blank_open = refl

blank_undecided : winning_symbol (replicate 9 empty) ≡ none
unfolding winning_symbol get_elem? replicate
blank_undecided = refl

pub default-IsValid : IsValid default
unfolding default
default-IsValid = ground arith

marks-set :
    (mark s : Symbol) (b : Board) (at : ℕ)
    → get_elem? b at ≡ some empty
    → marks mark (set b at (occupied s))
      ≡ (if eq_symbol s mark then suc (marks mark b) else marks mark b)
marks-set mark s b at h =
    ground (arith, count-set (λ t. eq_tile t (occupied mark)) b at (occupied s) h)

join-IsValid :
    (s : GameState) (p : PlayerId) (name : String)
    → IsValid s
    → CanJoin s p
    → IsValid (result_state s (join_game p name))
join-IsValid s p name v can =
    ground (arith, blank_marks Symbol.x, blank_marks Symbol.o, blank_open, blank_undecided)

place-IsValid :
    (s : GameState) (p : PlayerId) (at : ℕ)
    → IsValid s
    → IsLegal s p at
    → IsValid (result_state s (place_tile p at))
place-IsValid s p at v legal = ground (
  arith,
  marks-set Symbol.x (symbol_for s p) s.board at,
  marks-set Symbol.o (symbol_for s p) s.board at,
)

leave-IsValid : (s : GameState) (p : PlayerId) → IsValid s → IsValid (result_state s (leave_game p))
leave-IsValid s p v = ground arith

-- An accepted command keeps the invariant.
pub result_state-IsValid :
    (s : GameState) (c : GameCommand) {evs : List GameEvent}
    → decide s c ≡ ok evs
    → IsValid s
    → IsValid (result_state s c)
result_state-IsValid s (join_game p name) {evs} h v =
    join-IsValid s p name v (((decide-join s p name).0 evs).0 h).0
result_state-IsValid s (place_tile p at) {evs} h v =
    place-IsValid s p at v (((decide-place s p at).0 evs).0 h).0
result_state-IsValid s (leave_game p) h v = leave-IsValid s p v
