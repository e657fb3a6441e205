-- ===== src/Decider/Game/Moves.antt =====
-- The game on paper: the moves that a log records, whose turn it is after them, and what they draw.
use tic_tac_tussle.Base.{
  ℕ, ◌<◌, ◌≡◌, ◌≢◌, List, [], ◌∷◌, ◌++◌, ◌==◌, if◌then◌else◌, arith, refl, ap, sym,
}
use tic_tac_tussle.State.{PlayerId, Symbol, Tile, empty, occupied, GameState}
use tic_tac_tussle.Events.{GameEvent, player_joined, game_started, tile_placed, game_ended}

-- The tiles that a log records, in order.
unfoldable pub moves : List GameEvent → List ℕ
moves [] = []
moves (tile_placed p at ∷ l) = at ∷ moves l
moves (player_joined p name ∷ l) = moves l
moves (game_started p ∷ l) = moves l
moves (GameEvent.player_left p ∷ l) = moves l
moves (game_ended r ∷ l) = moves l

abbrev pub other : Symbol → Symbol
other Symbol.x = Symbol.o
other Symbol.o = Symbol.x

-- Whose turn it is after some moves, if `s` began.
unfoldable pub turn : Symbol → List ℕ → Symbol
turn s [] = s
turn s (at ∷ m) = turn (other s) m

-- What stands on tile `i` after some moves, if `s` began: the first move on it decides.
unfoldable pub drawn : Symbol → List ℕ → ℕ → Tile
drawn s [] i = empty
drawn s (at ∷ m) i = if at == i then occupied s else drawn (other s) m i

pub moves-append : (l r : List GameEvent) → moves (l ++ r) ≡ moves l ++ moves r
unfolding moves
moves-append [] r = refl
moves-append (tile_placed p at ∷ l) r = ap (◌∷◌ at) (moves-append l r)
moves-append (player_joined p name ∷ l) r = moves-append l r
moves-append (game_started p ∷ l) r = moves-append l r
moves-append (GameEvent.player_left p ∷ l) r = moves-append l r
moves-append (game_ended e ∷ l) r = moves-append l r

pub turn-append : (s : Symbol) (m : List ℕ) (at : ℕ) → turn s (m ++ at ∷ []) ≡ other (turn s m)
unfolding turn
turn-append s [] at = refl
turn-append s (a ∷ m) at = turn-append (other s) m at

-- A move on an empty tile puts the symbol of the turn there, and leaves the other tiles.
pub drawn-append :
    (s : Symbol) (m : List ℕ) (at i : ℕ)
    → drawn s m at ≡ empty
    → drawn s (m ++ at ∷ []) i ≡ (if at == i then occupied (turn s m) else drawn s m i)
unfolding drawn turn
drawn-append s [] at i h = refl
drawn-append s (a ∷ m) at i h = ground (arith, drawn-append (other s) m at i)

-- The player of a symbol.
abbrev pub player_of : GameState → Symbol → PlayerId
player_of s Symbol.x = s.players.0
player_of s Symbol.o = s.players.1

-- The tile is not among the moves.
abbrev pub NotIn : ℕ → List ℕ → Type 0
NotIn at [] = Unit {0}
NotIn at (a ∷ m) = (a ≢ at) × NotIn at m

-- The moves are on the board, and no tile is taken twice.
abbrev pub IsLawful : List ℕ → Type 0
IsLawful [] = Unit {0}
IsLawful (a ∷ m) = (a < 9) × NotIn a m × IsLawful m

pub NotIn-append : (b : ℕ) (m : List ℕ) (at : ℕ) → NotIn b m → at ≢ b → NotIn b (m ++ at ∷ [])
NotIn-append b [] at n h = (h, tt)
NotIn-append b (a ∷ m) at n h = (n.0, NotIn-append b m at n.1 h)

pub IsLawful-append :
    (m : List ℕ) (at : ℕ) → IsLawful m → NotIn at m → at < 9 → IsLawful (m ++ at ∷ [])
IsLawful-append [] at l n h = (h, tt, tt)
IsLawful-append (a ∷ m) at l n h =
    (l.0, NotIn-append a m at l.1 (λ e. n.0 (sym e)), IsLawful-append m at l.2 n.1 h)

pub drawn-NotIn : (s : Symbol) (m : List ℕ) (at : ℕ) → drawn s m at ≡ empty → NotIn at m
unfolding drawn
drawn-NotIn s [] at h = tt
drawn-NotIn s (a ∷ m) at h = (ground arith, drawn-NotIn (other s) m at (ground arith))
