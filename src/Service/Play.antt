-- ===== src/Service/Play.antt =====
-- server/src/game_service.rs: a game that is played to its end through `handle`.
use tic_tac_tussle.Base.{
  ℕ, zero, suc, ◌≤◌, ◌≡◌, ◌≢◌, inl, inr, refl, sym, subst, ap, ◌∙◌, some, none, arith,
  if◌then◌else◌,
}
use tic_tac_tussle.State.{GameState, lobby, in_game, ended, eq_stage}
use tic_tac_tussle.Commands
use tic_tac_tussle.Commands.{Stamp, CommandEnvelope, GameCommand, place_tile}
use tic_tac_tussle.Decider.{hydrate}
use tic_tac_tussle.Decider.Branches.{decide-place}
use tic_tac_tussle.Decider.Result.{result_state}
use tic_tac_tussle.Decider.Invariant.{IsValid, vacant, result_state-IsValid}
use tic_tac_tussle.Decider.History.{hydrate-IsValid, hydrate-append}
use tic_tac_tussle.Decider.Game.{hydrate-Shows, Shows, moves}
use tic_tac_tussle.Decider.Progress.{IsStrategy, vacant-place, stage_options, stage_cases}
use tic_tac_tussle.Store.{events}
use tic_tac_tussle.Ports.{EventPublisher, NetworkBroadcaster, Anyhow}
use tic_tac_tussle.Service.Monad.{GameService}
use tic_tac_tussle.Service.{handle}
use tic_tac_tussle.Service.Handle.{IsGood}
use tic_tac_tussle.Service.Guarantees.{handle-IsGood, handle_accepted}

module _ {E P N : Type 0} (any : Anyhow E) (port : EventPublisher E P)
    (net : NetworkBroadcaster E N) (stamps : ℕ → Stamp) (clock : ℕ → Stamp)
    (choose : GameState → ℕ) where
  -- The command of the player whose turn it is, who chooses a tile by the state.
  abbrev pub choice : ℕ → GameService P N → GameState → CommandEnvelope
  choice n g s = Commands.new (clock n) g.store.game_id (place_tile s.active_player_id (choose s))

  -- A turn: while the game is in play, that command is handled.
  abbrev pub turn : ℕ → GameService P N → GameService P N
  turn n g = elim (hydrate (events g.store)) [
    | some s ↦
        if eq_stage s.stage in_game then (handle any port net stamps (choice n g s) g).1 else g
    | none ↦ g
  ]

  abbrev pub turns : ℕ → GameService P N → GameService P N
  turns zero g = g
  turns (suc n) g = turns n (turn n g)

  turn_in_play :
      (n : ℕ) (g : GameService P N) (s : GameState)
      → hydrate (events g.store) ≡ some s
      → s.stage ≡ in_game
      → turn n g ≡ (handle any port net stamps (choice n g s) g).1
  turn_in_play n g s h playing =
      rw (turn, h)
        (subst
          (λ st.
            (if eq_stage st in_game then (handle any port net stamps (choice n g s) g).1 else g)
            ≡ (handle any port net stamps (choice n g s) g).1)
          (sym playing) refl)

  turns_over :
      (n : ℕ) (g : GameService P N) (s : GameState)
      → hydrate (events g.store) ≡ some s
      → s.stage ≡ ended
      → turns n g ≡ g
  turns_over zero g s h over = refl
  turns_over (suc n) g s h over =
      let stays : turn n g ≡ g =
        rw (turn, h)
          (subst
            (λ st.
              (if eq_stage st in_game then (handle any port net stamps (choice n g s) g).1 else g)
              ≡ g)
            (sym over) refl) in
      ap (turns n) stays ∙ turns_over n g s h over

  -- The game has ended after these turns, and its log is good.
  abbrev Ends : ℕ → GameService P N → Type 0
  Ends n g =
      IsGood (turns n g).store
      × ((u : GameState) × (hydrate (events (turns n g).store) ≡ some u)
          × (u.stage ≡ ended)
          × IsValid u)

  over-Ends :
      (n : ℕ) (g : GameService P N) (s : GameState)
      → IsGood g.store
      → hydrate (events g.store) ≡ some s
      → IsValid s
      → s.stage ≡ ended
      → Ends n g
  over-Ends n g s good h valid over = rw (turns_over n g s h over) (good, (s, h, over, valid))

  module _ (strategy : IsStrategy choose) where
    play_from :
        (n : ℕ) (g : GameService P N) (s : GameState)
        → IsGood g.store
        → hydrate (events g.store) ≡ some s
        → IsValid s
        → vacant s.board ≤ n
        → s.stage ≢ lobby
        → Ends n g
    unfolding Commands.new
    play_from zero g s good h valid few left = elim (stage_cases s left) [
      | inr over ↦ over-Ends zero g s good h valid over
      | inl playing ↦
          absurd (omega (arith, few, vacant-place s (choose s) (strategy s valid playing)))
    ]
    play_from (suc n) g s good h valid few left = elim (stage_cases s left) [
      | inr over ↦ over-Ends (suc n) g s good h valid over
      | inl playing ↦
          let p = s.active_player_id in
          let move = place_tile p (choose s) in
          let legal = strategy s valid playing in
          let run = ((decide-place s p (choose s)).0 _).1 (legal, refl) in
          let cmd = choice n g s in
          let next = (handle any port net stamps cmd g).1 in
          let logged = (handle_accepted any port net stamps cmd g s _ refl h run).0 in
          let shown : hydrate (events next.store) ≡ some (result_state s move) =
            ap hydrate logged ∙ hydrate-append (events g.store) move h run in
          subst (λ t. Ends n t) (sym (turn_in_play n g s h playing))
            (play_from n next (result_state s move) (handle-IsGood any port net stamps cmd g good).0
              shown (result_state-IsValid s move run valid)
              (omega (arith, few, vacant-place s (choose s) legal))
              (stage_options s p (choose s) left))
    ]

    -- However the players choose among their legal moves, whatever the broker and the network do:
    -- on a good log of a game that has begun, nine turns of handle, each with the move of the
    -- player whose turn it is while the game is in play, take the game to its end, in a valid state
    -- and on a good log.
    pub handle_turns :
        (g : GameService P N) (s : GameState)
        → IsGood g.store
        → hydrate (events g.store) ≡ some s
        → s.stage ≢ lobby
        → let after = (turns 9 g).store in
          IsGood after
          × ((u : GameState) × (hydrate (events after) ≡ some u) × (u.stage ≡ ended) × IsValid u)
    handle_turns g s good h left =
        let (t, k, valid) = hydrate-IsValid good.history in
        let same : t ≡ s = cc in
        let shows : Shows (moves (events g.store)) s = hydrate-Shows good.history h in
        play_from 9 g s good h (subst IsValid same valid) (omega (arith, shows.room)) left
