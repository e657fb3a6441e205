-- ===== src/Decider/Placements.antt =====
-- store/src/decider.rs: the board of a game against the placements in its log.
use mathlib.Core.List.Memᴰ
use tic_tac_tussle.Base.{
  ℕ, ◌<◌, ◌≡◌, ◌↔◌, inl, inr, refl, ap, sym, subst, ◌∙◌, some, List, [], ◌∷◌, ◌++◌, Memᴰ, ok, arith,
  String, ℕ_discrete,
}
use tic_tac_tussle.Base.Vec.{get_elem?}
use tic_tac_tussle.Base.Vec.Laws.{get_elem?-set_self, get_elem?-set_ne, get_elem?-replicate}
use tic_tac_tussle.State.{PlayerId, Symbol, occupied, empty, default, lobby, GameState}
use tic_tac_tussle.Commands.{GameCommand, join_game, place_tile, leave_game}
use tic_tac_tussle.Events.{GameEvent, player_joined, game_started, tile_placed, game_ended}
use tic_tac_tussle.Decider.{hydrate, decide, fold_events, endings}
use tic_tac_tussle.Decider.Branches.{
  decide-join, decide-place, decide-leave, departure, symbol_for, placed, starts, seats, IsLegal,
}
use tic_tac_tussle.Decider.Result.{result_state}
use tic_tac_tussle.Decider.Invariant.{IsValid}
use tic_tac_tussle.Decider.Game.{IsLawful, moves, moves-endings, moves-join, moves-departure}
use tic_tac_tussle.Decider.History.{IsHistory, fresh, accepted, hydrate-append, hydrate-IsValid}

-- The tile `i` carries `t` exactly when the log has a placement there by the player of `t`.
abbrev pub IsRecorded : List GameEvent → GameState → Type 0
IsRecorded l s =
    (i : ℕ) (t : Symbol)
    → (i < 9)
    → (get_elem? s.board i ≡ some (occupied t))
      ↔ ((p : PlayerId) × Memᴰ (tile_placed p i) l × (symbol_for s p ≡ t))

default-IsRecorded : IsRecorded [] default
unfolding default
default-IsRecorded i t h =
    (λ e. absurd (cc (get_elem?-replicate 9 i empty h)), λ (p, m, e). absurd (Memᴰ.not-nil m))

-- No event of the list places a tile.
abbrev IsIdle : List GameEvent → Type 0
IsIdle new = (p : PlayerId) (i : ℕ) → Memᴰ (tile_placed p i) new → ⊥

moves-IsIdle : (l : List GameEvent) → moves l ≡ [] → IsIdle l
unfolding moves
moves-IsIdle [] h p i m = absurd (Memᴰ.not-nil m)
moves-IsIdle (e ∷ l) h p i m = elim (Memᴰ.cases_cons m) [
  | inl same ↦ absurd (cc (rw (sym same) at h))
  | inr k ↦ moves-IsIdle l (rest e h) p i k
]
  where
    rest : (e : GameEvent) → moves (e ∷ l) ≡ [] → moves l ≡ []
    rest (player_joined q n) h = h
    rest (game_started q) h = h
    rest (tile_placed q at) h = cc
    rest (GameEvent.player_left q) h = h
    rest (game_ended r) h = h

endings-IsIdle : (s : GameState) (q : PlayerId) (at : ℕ) → IsIdle (endings q (placed s q at))
unfolding moves
endings-IsIdle s q at = moves-IsIdle _ (cc (moves-endings s q at))

module _ (l : List GameEvent) (s : GameState) (past : IsRecorded l s) where
  join-IsRecorded :
      (q : PlayerId) (n : String)
      → IsValid s
      → s.stage ≡ lobby
      → IsRecorded (l ++ player_joined q n ∷ starts (seats s q)) (result_state s (join_game q n))
  join-IsRecorded q n v stage i t h =
      let blank : get_elem? s.board i ≡ some empty =
        ap (λ b. get_elem? b i) (v.lobby_blank stage) ∙ get_elem?-replicate 9 i empty h in
      (
        λ e. absurd (ground arith),
        λ (p, m, e). elim (Memᴰ.append_cases l m) [
          | inl old ↦ let before = (past i (symbol_for s p) h).1 (p, old, refl) in absurd (cc)
          | inr k ↦ absurd (moves-IsIdle _ (moves-join s q n) p i k)
        ],
      )

  leave-IsRecorded :
      (q : PlayerId) → IsRecorded (l ++ departure s q) (result_state s (leave_game q))
  leave-IsRecorded q i t h = (
    λ e. let (p, m, r) = (past i t h).0 e in (p, Memᴰ.append_left _ m, r),
    λ (p, m, e). elim (Memᴰ.append_cases l m) [
      | inl old ↦ (past i t h).1 (p, old, e)
      | inr k ↦ absurd (moves-IsIdle _ (moves-departure s q) p i k)
    ],
  )

  place-IsRecorded :
      (q : PlayerId) (at : ℕ)
      → IsLegal s q at
      → IsRecorded
          (l ++ tile_placed q at ∷ endings q (placed s q at))
          (result_state s (place_tile q at))
  place-IsRecorded q at legal i t h = elim (ℕ_discrete at i) [
    | yes same ↦ (
      λ e. (
        q,
        Memᴰ.append_right l (Memᴰ.head (ap (tile_placed q) (sym same))),
        ground (arith, get_elem?-set_self s.board at (occupied (symbol_for s q)) legal.2),
      ),
      λ (p, m, e). elim (Memᴰ.append_cases l m) [
        | inl old ↦
            let before = (past i t h).1 (p, old, e) in
            absurd (cc (rw (sym same) at before, legal.3))
        | inr k ↦ elim (Memᴰ.cases_cons k) [
          | inl new ↦
              ground (arith, get_elem?-set_self s.board at (occupied (symbol_for s q)) legal.2)
          | inr k ↦ absurd (endings-IsIdle s q at p i k)
        ]
      ],
    )
    | no other ↦ (
      λ e.
          let (p, m, r) =
            (past i t h).0
              (sym (get_elem?-set_ne s.board at i (occupied (symbol_for s q)) other) ∙ e) in
          (p, Memᴰ.append_left _ m, r),
      λ (p, m, e). elim (Memᴰ.append_cases l m) [
        | inl old ↦
            get_elem?-set_ne s.board at i (occupied (symbol_for s q)) other
            ∙ (past i t h).1 (p, old, e)
        | inr k ↦ elim (Memᴰ.cases_cons k) [
          | inl new ↦ absurd (ground arith)
          | inr k ↦ absurd (endings-IsIdle s q at p i k)
        ]
      ],
    )
  ]

decide-IsRecorded :
    (l : List GameEvent) (s : GameState) (c : GameCommand) {new : List GameEvent}
    → IsValid s
    → IsRecorded l s
    → decide s c ≡ ok new
    → IsRecorded (l ++ new) (result_state s c)
decide-IsRecorded l s (join_game q n) {new} v past d =
    let ((stage, a, b), e) = ((decide-join s q n).0 new).0 d in
    rw e (join-IsRecorded l s past q n v stage)
decide-IsRecorded l s (place_tile q at) {new} v past d =
    let (legal, e) = ((decide-place s q at).0 new).0 d in
    rw e (place-IsRecorded l s past q at legal)
decide-IsRecorded l s (leave_game q) {new} v past d =
    let e : new ≡ departure s q = cc (decide-leave s q) in rw e (leave-IsRecorded l s past q)

-- The hydrated board of every log of a game has a symbol on a tile exactly when the log has a
-- placement there by the player of that symbol.
pub hydrate-IsRecorded :
    {l : List GameEvent} {s : GameState} → IsHistory l → hydrate l ≡ some s → IsRecorded l s
unfolding hydrate fold_events
hydrate-IsRecorded {s = s} fresh e =
    let same : default ≡ s = cc in subst (IsRecorded []) same default-IsRecorded
hydrate-IsRecorded {s = s'} (accepted {l = l} {new = new} {s = s} c h f d q) e =
    let (t, g, v) = hydrate-IsValid h in
    let valid : IsValid s = let same : t ≡ s = cc in subst IsValid same v in
    let run = hydrate-append l c f d in
    let same : result_state s c ≡ s' = cc in
    rw q (
      subst (IsRecorded (l ++ new)) same (decide-IsRecorded l s c valid (hydrate-IsRecorded h f) d))

pub lawful_range :
    (l : List GameEvent)
    → IsLawful (moves l)
    → (p : PlayerId) (i : ℕ) → Memᴰ (tile_placed p i) l
    → i < 9
unfolding moves
lawful_range [] h p i m = absurd (Memᴰ.not-nil m)
lawful_range (tile_placed q at ∷ l) h p i m = elim (Memᴰ.cases_cons m) [
  | inl e ↦ let same : i ≡ at = cc in omega (arith, h.0)
  | inr k ↦ lawful_range l h.2 p i k
]
lawful_range (player_joined q n ∷ l) h p i m = elim (Memᴰ.cases_cons m) [
  | inl e ↦ cc
  | inr k ↦ lawful_range l h p i k
]
lawful_range (game_started q ∷ l) h p i m = elim (Memᴰ.cases_cons m) [
  | inl e ↦ cc
  | inr k ↦ lawful_range l h p i k
]
lawful_range (GameEvent.player_left q ∷ l) h p i m = elim (Memᴰ.cases_cons m) [
  | inl e ↦ cc
  | inr k ↦ lawful_range l h p i k
]
lawful_range (game_ended r ∷ l) h p i m = elim (Memᴰ.cases_cons m) [
  | inl e ↦ cc
  | inr k ↦ lawful_range l h p i k
]
