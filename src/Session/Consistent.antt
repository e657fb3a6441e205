-- ===== src/Session/Consistent.antt =====
-- server/src/main.rs and client/src/main.rs: the client of a session shows a moment of the log.
use tic_tac_tussle.Base.{
  ℕ, ◌≡◌, ap, sym, subst, ◌∙◌, inl, inr, true, Option, some, List, ◌++◌, Bytes, String,
  append_assoc,
}
use tic_tac_tussle.State.{GameId, GameState, PlayerId}
use tic_tac_tussle.State.Pair.{PlayerPair, symbol_of}
use tic_tac_tussle.Commands.{Stamp, GameCommand}
use tic_tac_tussle.Events.{GameEvent}
use tic_tac_tussle.Decider.{hydrate}
use tic_tac_tussle.Decider.Branches.{symbol_for}
use tic_tac_tussle.Decider.History.{IsHistory, hydrate-IsValid}
use tic_tac_tussle.Decider.Invariant.{IsValid}
use tic_tac_tussle.Store.{events}
use tic_tac_tussle.Ports.{EventPublisher, Anyhow}
use tic_tac_tussle.Service.Guarantees.{PublishReturns}
use tic_tac_tussle.Network.{Codec, Renet}
use tic_tac_tussle.Client.{receive_server_events}
use tic_tac_tussle.Client.Replay.{after, client_shows_log}
use tic_tac_tussle.Client.Players.{pair_of-joins}
use tic_tac_tussle.Client.Screen.{Float}
use tic_tac_tussle.Client.Display.{Palette}
use tic_tac_tussle.Session.{World, Reach, IsBeginning}
use tic_tac_tussle.Session.Following.{
  IsFollowing, beginning-IsFollowing, Reach-IsFollowing, append_cancel,
}

module _ {E P N F K : Type 0} (any : Anyhow E) (codec : Codec E GameEvent) (renet : Renet N)
    (port : EventPublisher E P) (stamps : ℕ → Stamp) (returns : PublishReturns port)
    (name_of : ℕ → String) (decode : Bytes → Option GameCommand) (game_id : GameId)
    (float : Float F) (palette : Palette F K) (commands : Codec E GameCommand) (username : String)
    (id : ℕ) where
  known_pair :
      (w : World P N F K)
      (f : IsFollowing any codec renet port stamps returns name_of decode game_id float palette
        commands username id w)
      (s : GameState) (pair : PlayerPair)
      → hydrate (events w.server.service.store) ≡ some s
      → (w.app.client).maybe_pair ≡ some pair
      → (p : PlayerId) → symbol_of pair p ≡ symbol_for s p
  known_pair w f s pair h known p = elim f.pair [
    | inl unknown ↦ cc
    | inr (first, rest, split, found) ↦
        let whole = f.log ∙ (ap (λ l. l ++ f.behind) split ∙ append_assoc first rest f.behind) in
        pair_of-joins first (rest ++ f.behind) s pair (subst IsHistory whole f.in_step.0.history)
          (ap hydrate (sym whole) ∙ h) (sym found ∙ known) p
  ]

  -- However the rounds of the server and the frames of a client take turns, whose systems run in
  -- any order and which receives any number of the messages that were sent, from the moment on
  -- where the client has connected, and where the publisher returns and the transport neither
  -- connects the client again nor sends it anything of its own: the client has received the first
  -- events of the server's log, and its state is the one that they hydrate to; a pair that it knows
  -- gives every player the symbol of the server's state; and if it is still connected, it comes to
  -- the server's valid state, without a panic, once it receives all messages that were sent.
  pub Reach-IsConsistent :
      (first w : World P N F K)
      → IsBeginning any codec renet port stamps name_of decode game_id float palette commands
          username id first
      → Reach any codec renet port stamps name_of decode game_id float palette commands username id
          first w
      → let c = w.app.client in
        let log = events w.server.service.store in
        (s : GameState) × (behind : List GameEvent) × (hydrate log ≡ some s)
        × IsValid s
        × (log ≡ c.received_events ++ behind)
        × (hydrate c.received_events ≡ some c.state)
        × ((pair : PlayerPair)
            → c.maybe_pair ≡ some pair
            → (p : PlayerId) → symbol_of pair p ≡ symbol_for s p)
        × ((raws : List Bytes)
            → renet.is_connected w.server.service.broadcaster id ≡ true
            → renet.sent w.server.service.broadcaster id ≡ w.taken ++ raws
            → receive_server_events codec raws c ≡ some (after c s behind))
  Reach-IsConsistent first w b past =
      let f =
        Reach-IsFollowing any codec renet port stamps returns name_of decode game_id float palette
          commands username id
          (beginning-IsFollowing any codec renet port stamps returns name_of decode game_id float
            palette commands username id first b)
          past in
      let (s, h, valid) = hydrate-IsValid f.in_step.0.history in
      (
        s,
        f.behind,
        h,
        valid,
        f.log,
        f.shown,
        λ pair known p. known_pair w f s pair h known p,
        λ raws on sent.
            let (t, evs, h', valid', log, run) =
              client_shows_log any codec renet port stamps id w.server.service w.app.client w.taken
                raws f.in_step on sent f.read f.shown in
            let same : t ≡ s = cc in
            let behind : evs ≡ f.behind =
              append_cancel (w.app.client).received_events evs f.behind (sym log ∙ f.log) in
            rw (← same, ← behind) run,
      )
