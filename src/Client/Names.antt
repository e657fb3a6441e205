-- ===== src/Client/Names.antt =====
-- client/src/main.rs: the names that the client shows are those under which the players joined.
use mathlib.Core.List.Memᴰ
use tic_tac_tussle.Base.{
  ◌≡◌, ◌≢◌, refl, ap, subst, inl, inr, String, some, none, List, [], ◌∷◌, Memᴰ, arith,
}
use tic_tac_tussle.State.{PlayerId, GameState, lobby}
use tic_tac_tussle.State.Pair.{PlayerPair, name_of, new}
use tic_tac_tussle.Events.{GameEvent, player_joined, game_started, tile_placed, game_ended}
use tic_tac_tussle.Decider.{hydrate}
use tic_tac_tussle.Decider.Invariant.{IsValid}
use tic_tac_tussle.Decider.History.{IsHistory, hydrate-IsValid}
use tic_tac_tussle.Client.{Client, joins, pair_of, update_pair}
use tic_tac_tussle.Client.Players.{IsSeated, nobody, one, two, joins-IsSeated}
use tic_tac_tussle.Client.Status.{name_or_opponent}

joined-joins :
    (l : List GameEvent) (p : PlayerId) (name : String)
    → Memᴰ (player_joined p name) l
    → Memᴰ (p, name) (joins l)
unfolding joins
joined-joins [] p name m = absurd (Memᴰ.not-nil m)
joined-joins (player_joined q n ∷ l) p name m = elim (Memᴰ.cases_cons m) [
  | inl e ↦ Memᴰ.head (cc)
  | inr k ↦ Memᴰ.tail (joined-joins l p name k)
]
joined-joins (game_started q ∷ l) p name m = elim (Memᴰ.cases_cons m) [
  | inl e ↦ cc
  | inr k ↦ joined-joins l p name k
]
joined-joins (tile_placed q at ∷ l) p name m = elim (Memᴰ.cases_cons m) [
  | inl e ↦ cc
  | inr k ↦ joined-joins l p name k
]
joined-joins (GameEvent.player_left q ∷ l) p name m = elim (Memᴰ.cases_cons m) [
  | inl e ↦ cc
  | inr k ↦ joined-joins l p name k
]
joined-joins (game_ended r ∷ l) p name m = elim (Memᴰ.cases_cons m) [
  | inl e ↦ cc
  | inr k ↦ joined-joins l p name k
]

-- In a pair of two players, each has the name of its entry.
named :
    (a b p : PlayerId) (n m name : String)
    → a ≢ b
    → Memᴰ {A = PlayerId × String} (p, name) ((a, n) ∷ (b, m) ∷ [])
    → name_of (new a n b m) p ≡ some name
unfolding name_of new
named a b p n m name apart here = elim (Memᴰ.cases_cons here) [
  | inl e ↦
      let id : p ≡ a = ap (λ x. x.0) e in let same : name ≡ n = ap (λ x. x.1) e in ground arith
  | inr later ↦ elim (Memᴰ.cases_cons later) [
    | inl e ↦
        let id : p ≡ b = ap (λ x. x.0) e in let same : name ≡ m = ap (λ x. x.1) e in ground arith
    | inr k ↦ absurd (Memᴰ.not-nil k)
  ]
]

IsSeated-named :
    {l : List (PlayerId × String)} {a b : PlayerId} (p : PlayerId) (name : String)
    → IsSeated l (a, b)
    → a ≢ b
    → b ≢ 0
    → Memᴰ (p, name) l
    → (pair : PlayerPair) × (pair_of l ≡ some pair) × (name_of pair p ≡ some name)
unfolding pair_of
IsSeated-named p name nobody apart seated m = absurd (seated refl)
IsSeated-named p name (one nz) apart seated m = absurd (seated refl)
IsSeated-named p name (two {p = a} {q = b} {n = n} {m = m} nz mz) apart seated here =
    (new a n b m, refl, named a b p n m name apart here)

shown_name :
    (c : Client) (pair : PlayerPair) (p : PlayerId) (name : String)
    → c.maybe_pair ≡ none
    → pair_of (joins c.received_events) ≡ some pair
    → name_of pair p ≡ some name
    → name_or_opponent (update_pair c) p ≡ name
unfolding update_pair name_or_opponent
shown_name c pair p name unknown found known = rw (unknown, found, name_or_opponent, known) refl

-- Once the game has started, and a client that had no pair has received its log and has run
-- update_pair, it shows every player by the name under which the log has the player joining.
pub name_or_opponent-joined :
    (c : Client) (s : GameState) (p : PlayerId) (name : String)
    → IsHistory c.received_events
    → hydrate c.received_events ≡ some s
    → s.stage ≢ lobby
    → c.maybe_pair ≡ none
    → Memᴰ (player_joined p name) c.received_events
    → name_or_opponent (update_pair c) p ≡ name
name_or_opponent-joined c s p name past h started unknown m =
    let (t, k, valid) = hydrate-IsValid past in
    let (u, j, seated) = joins-IsSeated past in
    let same_valid : t ≡ s = cc in
    let same : u ≡ s = cc in
    let v = subst IsValid same_valid valid in
    let (pair, found, shown) =
      IsSeated-named p name (subst (λ x. IsSeated (joins c.received_events) x.players) same seated)
        (v.distinct started) (v.second_seated started) (joined-joins c.received_events p name m) in
    shown_name c pair p name unknown found shown
