-- ===== src/Session/Agreement.antt =====
-- server/src/main.rs and client/src/main.rs: the clients of a server agree on the game.
use tic_tac_tussle.Base.{
  ℕ, ◌≡◌, ◌⊎◌, refl, sym, ap, ◌∙◌, inl, inr, Option, some, List, [], ◌∷◌, ◌++◌, Bytes, String,
}
use tic_tac_tussle.State.{GameId, PlayerId}
use tic_tac_tussle.State.Pair.{PlayerPair, symbol_of}
use tic_tac_tussle.Commands.{Stamp, GameCommand}
use tic_tac_tussle.Events.{GameEvent}
use tic_tac_tussle.Decider.{hydrate, fold_events}
use tic_tac_tussle.Decider.Branches.{symbol_for}
use tic_tac_tussle.Decider.History.{fold_events-append}
use tic_tac_tussle.State.{default}
use tic_tac_tussle.Ports.{EventPublisher, Anyhow}
use tic_tac_tussle.Service.Guarantees.{PublishReturns}
use tic_tac_tussle.Network.{Codec, Renet}
use tic_tac_tussle.Client.{Client}
use tic_tac_tussle.Client.Screen.{Float}
use tic_tac_tussle.Client.Display.{Palette}
use tic_tac_tussle.Session.{IsBeginning}
use tic_tac_tussle.Session.Table.{Table, Play, view, Play-view}
use tic_tac_tussle.Session.Consistent.{Reach-IsConsistent}

-- Of two beginnings of a list, one is a beginning of the other.
two_prefixes :
    (a b x y : List GameEvent)
    → a ++ x ≡ b ++ y
    → ((more : List GameEvent) × (b ≡ a ++ more)) ⊎ ((more : List GameEvent) × (a ≡ b ++ more))
two_prefixes [] b x y h = inl (b, refl)
two_prefixes (e ∷ a) [] x y h = inr (e ∷ a, refl)
two_prefixes (e ∷ a) (f ∷ b) x y h =
    let same : e ≡ f = cc in
    elim (two_prefixes a b x y cc) [
      | inl (more, k) ↦ inl (more, cc)
      | inr (more, k) ↦ inr (more, cc)
    ]

-- The events that the second client has received beyond those of the first lead from the state of
-- the first to that of the second.
abbrev pub IsBehind : Client → Client → Type 0
IsBehind c d =
    (more : List GameEvent) × (d.received_events ≡ c.received_events ++ more)
    × (fold_events c.state more ≡ some d.state)

IsBehind-intro :
    (c d : Client) (more : List GameEvent)
    → hydrate c.received_events ≡ some c.state
    → hydrate d.received_events ≡ some d.state
    → d.received_events ≡ c.received_events ++ more
    → IsBehind c d
unfolding hydrate
IsBehind-intro c d more h k e =
    (more, e, sym (fold_events-append default c.received_events more h) ∙ (ap hydrate (sym e) ∙ k))

module _ {E P N F K : Type 0} (any : Anyhow E) (codec : Codec E GameEvent) (renet : Renet N)
    (port : EventPublisher E P) (stamps : ℕ → Stamp) (returns : PublishReturns port)
    (name_of : ℕ → String) (decode : Bytes → Option GameCommand) (game_id : GameId)
    (float : Float F) (palette : Palette F K) (commands : Codec E GameCommand)
    (username : ℕ → String) (Present : ℕ → Type 0) where
  -- However the rounds of the server and the frames of any clients take turns, each of which
  -- receives any number of the messages that were sent to it, from the moment on where they have
  -- connected, and where the publisher returns and the transport neither connects one of them again
  -- nor sends them anything of its own: of any two of the clients, the one that has received more
  -- is led there from the other's state by the events that the other lacks; and where both know
  -- their pair, the two pairs give every player the same symbol.
  pub Play-IsBehind :
      (first t : Table P N F K) (a b : ℕ)
      → ((id : ℕ)
          → Present id
          → IsBeginning any codec renet port stamps name_of decode game_id float palette commands
              (username id)
              id
              (view any codec renet port stamps name_of decode game_id float palette commands
                username Present id first))
      → Play any codec renet port stamps name_of decode game_id float palette commands username
          Present first t
      → Present a
      → Present b
      → let c = (t.seats a).app.client in
        let d = (t.seats b).app.client in
        (IsBehind c d ⊎ IsBehind d c)
        × ((p q : PlayerPair) (id : PlayerId)
            → c.maybe_pair ≡ some p
            → d.maybe_pair ≡ some q
            → symbol_of p id ≡ symbol_of q id)
  Play-IsBehind first t a b begins past here there =
      let c = (t.seats a).app.client in
      let d = (t.seats b).app.client in
      let of = λ (id : ℕ) (present : Present id).
        Reach-IsConsistent any codec renet port stamps returns name_of decode game_id float palette
          commands (username id) id _ _ (begins id present)
          (Play-view any codec renet port stamps name_of decode game_id float palette commands
            username Present id present past) in
      let (s, more, h, valid, log, shown, pairs, rest) = of a here in
      let (s', more', h', valid', log', shown', pairs', rest') = of b there in
      let same : s ≡ s' = cc in
      (
        elim (two_prefixes c.received_events d.received_events more more' (sym log ∙ log')) [
          | inl (new, e) ↦ inl (IsBehind-intro c d new shown shown' e)
          | inr (new, e) ↦ inr (IsBehind-intro d c new shown' shown e)
        ],
        λ p q id k k'. pairs p k id ∙ (ap (λ u. symbol_for u id) same ∙ sym (pairs' q k' id)),
      )
