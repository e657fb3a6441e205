-- ===== src/Client/Status.antt =====
-- client/src/main.rs: `update_status`, and what the two players read.
use Prim.Native.String
use tic_tac_tussle.Base.{
  ℕ, ok, append_assoc, sym, ◌≡◌, ◌≢◌, ◌⊎◌, inl, inr, refl, ◌==◌, Option, some, none, String, List,
  [], ◌∷◌, ◌++◌, if◌then◌else◌, arith, ap, ◌∙◌,
}
use tic_tac_tussle.State.{PlayerId, GameState, lobby, in_game, eq_stage}
use tic_tac_tussle.State.Pair.{PlayerPair, name_of}
use tic_tac_tussle.Events.{
  GameEvent, game_started, tile_placed, game_ended, EndGameReason, player_won, draw,
}
use tic_tac_tussle.Commands.{place_tile}
use tic_tac_tussle.Board.Wins.{Wins}
use tic_tac_tussle.Decider.{decide}
use tic_tac_tussle.Decider.Branches.{IsLegal, decide-place, placed, symbol_for}
use tic_tac_tussle.Decider.Winner.{endings_lem}
use tic_tac_tussle.Decider.Invariant.{IsValid}
use tic_tac_tussle.Client.{Client}
use tic_tac_tussle.Client.Display.{Palette}

-- The text and the colour of the status bar.
pub record Status (K : Type 0) : Type 0 where
  pub text : String
  pub color : K

-- `local.0.unwrap_or(PlayerId(0))`
abbrev pub my_id : Client → PlayerId
my_id c = elim c.local_player_id [ some id ↦ id | none ↦ 0 ]

-- The name that the pair has for a player, or "Opponent".
unfoldable pub name_or_opponent : Client → PlayerId → String
unfolding name_of
name_or_opponent c p = elim c.maybe_pair [
  | some pair ↦ elim (name_of pair p) [ some name ↦ name | none ↦ "Opponent" ]
  | none ↦ "Opponent"
]

-- The pair has the players of the state, each in its seat.
abbrev pub IsPairOf : GameState → PlayerPair → Type 0
IsPairOf s pair = (pair.x.0 ≡ s.players.0) × (pair.o.0 ≡ s.players.1)

first_name :
    (c : Client) (pair : PlayerPair) (p : PlayerId)
    → c.maybe_pair ≡ some pair
    → pair.x.0 ≡ p
    → name_or_opponent c p ≡ pair.x.1
unfolding name_or_opponent name_of
first_name c pair p known h = rw known (ground arith)

second_name :
    (c : Client) (pair : PlayerPair) (p : PlayerId)
    → c.maybe_pair ≡ some pair
    → pair.x.0 ≢ p
    → pair.o.0 ≡ p
    → name_or_opponent c p ≡ pair.o.1
unfolding name_or_opponent name_of
second_name c pair p known ne h = rw known (ground arith)

module _ {F K : Type 0} (palette : Palette F K) where
  -- The arm of a move or a start, under its guard.
  unfoldable pub turn_status : Client → Status K
  unfolding name_or_opponent
  turn_status c =
      if c.state.active_player_id == my_id c
      then record { text = "Your turn!"; color = palette.srgb_u8 100 210 100 }
      else record {
        text = String.◌++◌ (name_or_opponent c c.state.active_player_id) "'s turn...";
        color = palette.white;
      }

  unfoldable pub end_status : Client → EndGameReason → Status K
  unfolding name_or_opponent
  end_status c (player_won winner) =
      if winner == my_id c
      then record { text = "You win! 🎉"; color = palette.srgb_u8 255 215 0 }
      else record {
        text = String.◌++◌ (name_or_opponent c winner) " wins.";
        color = palette.srgb_u8 200 80 80;
      }
  end_status c draw = record { text = "Draw!"; color = palette.srgb_u8 180 180 180 }
  end_status c (EndGameReason.player_left p) = record {
    text = "Opponent left.";
    color = palette.srgb_u8 160 160 160;
  }

  -- The arms of the `match`; the status stays as it is in the last one.
  unfoldable pub on_event : Client → GameEvent → Status K → Status K
  unfolding turn_status end_status
  on_event c (game_started p) q = if eq_stage c.state.stage in_game then turn_status c else q
  on_event c (tile_placed p at) q = if eq_stage c.state.stage in_game then turn_status c else q
  on_event c (game_ended reason) q = end_status c reason
  on_event c _ q = q

  -- `update_status`, over the events it has not read yet; `none` is a missing status text.
  unfoldable pub update_status : List GameEvent → Client → Option (Status K) → Option (Status K)
  unfolding on_event
  update_status [] c q = q
  update_status (e ∷ events) c none = update_status events c none
  update_status (e ∷ events) c (some q) = update_status events c (some (on_event c e q))

  -- The events after which the status bar tells whose turn it is.
  pub data IsTurnEvent : GameEvent → Type 0 where
    a_start : {p : PlayerId} → IsTurnEvent (game_started p)
    a_move : {p : PlayerId} {at : ℕ} → IsTurnEvent (tile_placed p at)

  -- The last event decides where it is not skipped.
  update_status-last :
      (es : List GameEvent) (e : GameEvent) (c : Client) (q : Status K)
      → (r : Status K) × (update_status (es ++ e ∷ []) c (some q) ≡ some (on_event c e r))
  unfolding update_status
  update_status-last [] e c q = (q, refl)
  update_status-last (d ∷ es) e c q = update_status-last es e c (on_event c d q)

  turn_shown :
      (es : List GameEvent) (e : GameEvent) (c : Client) (q : Status K)
      → IsTurnEvent e
      → c.state.stage ≡ in_game
      → update_status (es ++ e ∷ []) c (some q) ≡ some (turn_status c)
  unfolding on_event
  turn_shown es e c q a_start h = let (r, run) = update_status-last es e c q in run ∙ rw h refl
  turn_shown es e c q a_move h = let (r, run) = update_status-last es e c q in run ∙ rw h refl

  -- The two statuses of a turn.
  abbrev pub says_yours : Status K
  says_yours = record { text = "Your turn!"; color = palette.srgb_u8 100 210 100 }

  abbrev pub says_theirs : String → Status K
  says_theirs name = record { text = String.◌++◌ name "'s turn..."; color = palette.white }

  your_turn : (c : Client) → c.state.active_player_id ≡ my_id c → turn_status c ≡ says_yours
  unfolding turn_status
  your_turn c h = ground arith

  their_turn :
      (c : Client)
      → c.state.active_player_id ≢ my_id c
      → turn_status c ≡ says_theirs (name_or_opponent c c.state.active_player_id)
  unfolding turn_status
  their_turn c h = ground arith

  -- In a valid game that is in play, once the clients of the two players, which know the pair of
  -- them, have read the start or a move as the last event, the one whose turn it is reads so, and
  -- the other reads the name that the pair has for that player.
  pub one_turn :
      (x o : Client) (s : GameState) (xs os : List GameEvent) (e f : GameEvent) (q r : Status K)
      (pair : PlayerPair)
      → IsValid s
      → s.stage ≡ in_game
      → x.state ≡ s
      → o.state ≡ s
      → x.maybe_pair ≡ some pair
      → o.maybe_pair ≡ some pair
      → IsPairOf s pair
      → x.local_player_id ≡ some s.players.0
      → o.local_player_id ≡ some s.players.1
      → IsTurnEvent e
      → IsTurnEvent f
      → ((s.active_player_id ≡ s.players.0)
          × (update_status (xs ++ e ∷ []) x (some q) ≡ some says_yours)
          × (update_status (os ++ f ∷ []) o (some r) ≡ some (says_theirs pair.x.1)))
        ⊎ ((s.active_player_id ≡ s.players.1)
            × (update_status (xs ++ e ∷ []) x (some q) ≡ some (says_theirs pair.o.1))
            × (update_status (os ++ f ∷ []) o (some r) ≡ some says_yours))
  one_turn x o s xs os e f q r pair v playing hx ho kx ko (seat_x, seat_o) mx mo te tf =
      let left : s.stage ≢ lobby = ground arith in
      let apart = v.distinct left in
      let xshown = turn_shown xs e x q te (ap (λ t. t.stage) hx ∙ playing) in
      let oshown = turn_shown os f o r tf (ap (λ t. t.stage) ho ∙ playing) in
      elim (v.balanced left) [
        | inl (first, even) ↦ inl (
          first,
          xshown ∙ ap some (your_turn x (rw (mx, hx) first)),
          oshown
              ∙ ap some (
                  their_turn o (rw (mo, ho) (λ k. apart (sym first ∙ k)))
                  ∙ ap says_theirs (first_name o pair _ ko (rw ho (seat_x ∙ sym first)))),
        )
        | inr (second, odd) ↦ inr (
          second,
          xshown
              ∙ ap some (
                  their_turn x (rw (mx, hx) (λ k. apart (sym k ∙ second)))
                  ∙ ap says_theirs (
                      second_name x pair _ kx (rw hx (λ k. apart (sym seat_x ∙ (k ∙ second))))
                        (rw hx (seat_o ∙ sym second)))),
          oshown ∙ ap some (your_turn o (rw (mo, ho) second)),
        )
      ]

  -- The statuses of a game that a player has won.
  abbrev pub says_won : Status K
  says_won = record { text = "You win! 🎉"; color = palette.srgb_u8 255 215 0 }

  abbrev pub says_lost : String → Status K
  says_lost name = record { text = String.◌++◌ name " wins."; color = palette.srgb_u8 200 80 80 }

  end_shown :
      (es : List GameEvent) (c : Client) (winner : PlayerId) (q : Status K)
      → update_status (es ++ game_ended (player_won winner) ∷ []) c (some q)
        ≡ some (if winner == my_id c then says_won else says_lost (name_or_opponent c winner))
  unfolding on_event end_status
  end_shown es c winner q =
      let (r, run) = update_status-last es (game_ended (player_won winner)) c q in run

  -- When a player in turn places a tile in a valid game that completes a line, the client of that
  -- player reads the win, and a client of another player, which knows the pair of the players,
  -- reads the name that the pair has for the winner, that of the first seat or of the second, once
  -- each has read the events of the move last.
  pub win_shown :
      (mine theirs : Client) (s : GameState) (at : ℕ) (xs os : List GameEvent) (q r : Status K)
      (pair : PlayerPair)
      → IsValid s
      → theirs.maybe_pair ≡ some pair
      → IsPairOf s pair
      → IsLegal s s.active_player_id at
      → Wins (placed s s.active_player_id at) (symbol_for s s.active_player_id)
      → (other : PlayerId) → other ≢ s.active_player_id
      → mine.local_player_id ≡ some s.active_player_id
      → theirs.local_player_id ≡ some other
      → (evs : List GameEvent) × (decide s (place_tile s.active_player_id at) ≡ ok evs)
        × (update_status (xs ++ evs) mine (some q) ≡ some says_won)
        × (((s.active_player_id ≡ s.players.0)
              × (update_status (os ++ evs) theirs (some r) ≡ some (says_lost pair.x.1)))
            ⊎ ((s.active_player_id ≡ s.players.1)
                × (update_status (os ++ evs) theirs (some r) ≡ some (says_lost pair.o.1))))
  win_shown mine theirs s at xs os q r pair v known (seat_x, seat_o) legal line other apart mm mt =
      let p = s.active_player_id in
      let left : s.stage ≢ lobby = ground (arith, legal.0) in
      let won = (endings_lem s p at v legal).0.1 line in
      let run = ((decide-place s p at).0 _).1 (legal, refl) in
      let shown : update_status (os ++ tile_placed p at ∷ game_ended (player_won p) ∷ []) theirs
            (some r)
          ≡ some (says_lost (name_or_opponent theirs p)) =
        ap (λ l. update_status l theirs (some r)) (sym (append_assoc os (tile_placed p at ∷ []) _))
        ∙ (end_shown (os ++ tile_placed p at ∷ []) theirs p r ∙ rw mt (ground arith)) in
      (
        tile_placed p at ∷ game_ended (player_won p) ∷ [],
        run ∙ ap (λ l. ok (tile_placed p at ∷ l)) won,
        ap (λ l. update_status l mine (some q)) (sym (append_assoc xs (tile_placed p at ∷ []) _))
            ∙ (end_shown (xs ++ tile_placed p at ∷ []) mine p q ∙ rw mm (ground arith)),
        elim (v.balanced left) [
          | inl (first, even) ↦ inl (
            first,
            shown
                ∙ ap (λ n. some (says_lost n))
                    (first_name theirs pair p known (seat_x ∙ sym first)),
          )
          | inr (second, odd) ↦ inr (
            second,
            shown
                ∙ ap (λ n. some (says_lost n))
                    (second_name theirs pair p known
                      (λ k. v.distinct left (sym seat_x ∙ (k ∙ second))) (seat_o ∙ sym second)),
          )
        ],
      )
