-- ===== src/Client/Players.antt =====
-- client/src/main.rs: `update_pair` finds the two players of the game.
use tic_tac_tussle.Base.{
  ◌≡◌, ◌≢◌, refl, ap, ◌∙◌, sym, subst, String, some, none, List, [], ◌∷◌, ◌++◌, append-nil, ok,
  ◌==◌, if◌then◌else◌, arith,
}
use tic_tac_tussle.State.{PlayerId, GameState, lobby, default}
use tic_tac_tussle.State.Pair.{PlayerPair, symbol_of, new}
use tic_tac_tussle.Commands.{GameCommand, join_game, place_tile, leave_game}
use tic_tac_tussle.Events.{GameEvent, player_joined, game_started, tile_placed, game_ended}
use tic_tac_tussle.Decider.{hydrate, decide, fold_events}
use tic_tac_tussle.Decider.Branches.{decide-join, decide-place, decide-leave, departure, symbol_for}
use tic_tac_tussle.Decider.Result.{result_state}
use tic_tac_tussle.Decider.Invariant.{IsValid}
use tic_tac_tussle.Decider.History.{IsHistory, fresh, accepted, hydrate-append, hydrate-IsValid}
use tic_tac_tussle.Client.{Client, joins, pair_of, update_pair}

-- Those who joined, and the seats they took.
pub data IsSeated : List (PlayerId × String) → PlayerId × PlayerId → Type 0 where
  nobody : IsSeated [] (0, 0)
  one : {p : PlayerId} {n : String} → p ≢ 0 → IsSeated ((p, n) ∷ []) (p, 0)
  two : {p q : PlayerId} {n m : String} → p ≢ 0 → q ≢ 0 → IsSeated ((p, n) ∷ (q, m) ∷ []) (p, q)

IsSeated-join :
    {l : List (PlayerId × String)} {taken : PlayerId × PlayerId} (p : PlayerId) (n : String)
    → IsSeated l taken
    → taken.1 ≡ 0
    → taken.0 ≢ p
    → taken.1 ≢ p
    → IsSeated (l ++ (p, n) ∷ []) (if taken.0 == 0 then (p, taken.1) else (taken.0, p))
IsSeated-join p n nobody vacant a b = one (λ h. a (sym h))
IsSeated-join p n (one {p = q} nz) vacant a b = subst (IsSeated _) seat (two nz (λ h. b (sym h)))
  where
    seat : ◌≡◌ {A = PlayerId × PlayerId} (q, p) (if q == 0 then (p, 0) else (q, p))
    seat = ground arith
IsSeated-join p n (two nz mz) vacant a b = absurd (mz vacant)

joins-append : (l r : List GameEvent) → joins (l ++ r) ≡ joins l ++ joins r
unfolding joins
joins-append [] r = refl
joins-append (player_joined p n ∷ l) r = ap (λ t. (p, n) ∷ t) (joins-append l r)
joins-append (game_started p ∷ l) r = joins-append l r
joins-append (tile_placed p at ∷ l) r = joins-append l r
joins-append (GameEvent.player_left p ∷ l) r = joins-append l r
joins-append (game_ended e ∷ l) r = joins-append l r

-- Who joins by a command.
abbrev newcomers : GameCommand → List (PlayerId × String)
newcomers (join_game p n) = (p, n) ∷ []
newcomers (place_tile p at) = []
newcomers (leave_game p) = []

joins-decide :
    (s : GameState) (c : GameCommand) {evs : List GameEvent}
    → decide s c ≡ ok evs
    → joins evs ≡ newcomers c
unfolding joins
joins-decide s (join_game p n) {evs} d =
    let (can, e) = ((decide-join s p n).0 evs).0 d in rw e (ground arith)
joins-decide s (place_tile p at) {evs} d =
    let (legal, e) = ((decide-place s p at).0 evs).0 d in rw e (ground arith)
joins-decide s (leave_game p) {evs} d =
    let e : evs ≡ departure s p = (cc (decide-leave s p)) in rw e (ground arith)

IsSeated-result_state :
    (s : GameState) (c : GameCommand) {evs : List GameEvent} (l : List (PlayerId × String))
    → IsValid s
    → decide s c ≡ ok evs
    → IsSeated l s.players
    → IsSeated (l ++ newcomers c) (result_state s c).players
IsSeated-result_state s (join_game p n) {evs} l v d h =
    let ((stage, a, b), e) = ((decide-join s p n).0 evs).0 d in
    subst (IsSeated _) (ground arith) (IsSeated-join p n h (v.lobby_open stage) a b)
IsSeated-result_state s (place_tile p at) l v d h = rw (append-nil l) h
IsSeated-result_state s (leave_game p) l v d h = rw (append-nil l) h

pub joins-IsSeated :
    {l : List GameEvent}
    → IsHistory l
    → (s : GameState) × (hydrate l ≡ some s) × IsSeated (joins l) s.players
unfolding hydrate fold_events default joins
joins-IsSeated fresh = (default, refl, nobody)
joins-IsSeated (accepted {l = l} {new = new} {s = u} c past e d q) =
    let (s, h, seated) = joins-IsSeated past in
    let (t, k, valid) = hydrate-IsValid past in
    let same : s ≡ u = cc in
    let same_valid : t ≡ u = cc in
    (
      result_state u c,
      ap hydrate q ∙ hydrate-append l c e d,
      rw (q, joins-append l new, joins-decide u c d)
          (IsSeated-result_state u c (joins l) (subst IsValid same_valid valid) d
            (subst (λ x. IsSeated (joins l) x.players) same seated)),
    )

pair_of-IsSeated :
    {l : List (PlayerId × String)} {p q : PlayerId}
    → IsSeated l (p, q)
    → q ≢ 0
    → (pair : PlayerPair) × (pair_of l ≡ some pair) × (pair.x.0 ≡ p) × (pair.o.0 ≡ q)
unfolding pair_of new
pair_of-IsSeated nobody h = absurd (h refl)
pair_of-IsSeated (one nz) h = absurd (h refl)
pair_of-IsSeated (two nz mz) h = (_, refl, refl, refl)

-- Once the game has started, a client that has received its log finds its two players, each in the
-- seat that the state has for it, so that the pieces carry the symbols of the board.
pub update_pair_lem :
    (c : Client) (s : GameState)
    → IsHistory c.received_events
    → hydrate c.received_events ≡ some s
    → s.stage ≢ lobby
    → c.maybe_pair ≡ none
    → (pair : PlayerPair) × ((update_pair c).maybe_pair ≡ some pair)
      × (pair.x.0 ≡ s.players.0)
      × (pair.o.0 ≡ s.players.1)
      × ((p : PlayerId) → symbol_of pair p ≡ symbol_for s p)
unfolding update_pair symbol_of
update_pair_lem c s past h started unknown =
    let (t, k, valid) = hydrate-IsValid past in
    let (u, j, seated) = joins-IsSeated past in
    let same_valid : t ≡ s = cc in
    let same : u ≡ s = cc in
    let (pair, found, first, second) =
      pair_of-IsSeated (subst (λ x. IsSeated (joins c.received_events) x.players) same seated)
        ((subst IsValid same_valid valid).second_seated started) in
    (pair, rw unknown found, first, second, λ p. rw first refl)

IsSeated-first :
    {l : List (PlayerId × String)} {taken : PlayerId × PlayerId} (a : PlayerId × String)
    (rest : List (PlayerId × String))
    → IsSeated l taken
    → l ≡ a ∷ rest
    → a.0 ≡ taken.0
IsSeated-first a rest nobody e = cc
IsSeated-first a rest (one nz) e = cc
IsSeated-first a rest (two nz mz) e = cc

pair_of-first :
    (l k : List (PlayerId × String)) (pair : PlayerPair) {taken : PlayerId × PlayerId}
    → pair_of l ≡ some pair
    → IsSeated (l ++ k) taken
    → pair.x.0 ≡ taken.0
unfolding pair_of new
pair_of-first [] k pair e h = cc
pair_of-first (a ∷ []) k pair e h = cc
pair_of-first (a ∷ (b ∷ [])) k pair e h =
    let first = IsSeated-first a (b ∷ k) h refl in
    let same : new a.0 a.1 b.0 b.1 ≡ pair = cc in ap (λ p. p.x.0) (sym same) ∙ first
pair_of-first (a ∷ (b ∷ (c ∷ l))) k pair e h = cc

-- A pair that a client found in the first events of a log stays right for the whole log.
pub pair_of-joins :
    (l k : List GameEvent) (s : GameState) (pair : PlayerPair)
    → IsHistory (l ++ k)
    → hydrate (l ++ k) ≡ some s
    → pair_of (joins l) ≡ some pair
    → (p : PlayerId) → symbol_of pair p ≡ symbol_for s p
unfolding symbol_of
pair_of-joins l k s pair past h e p =
    let (u, j, seated) = joins-IsSeated past in
    let same : u ≡ s = cc in
    let first = pair_of-first (joins l) (joins k) pair e (
      subst (λ x. IsSeated (joins l ++ joins k) x.players) same
        (subst (λ x. IsSeated x u.players) (joins-append l k) seated)) in
    rw first refl
