-- ===== src/Server/Loop.antt =====
-- server/src/main.rs: what every round of the game loop keeps, whatever comes in.
use tic_tac_tussle.Base.{
  Bytes, ℕ, ◌≡◌, refl, sym, ap, ◌∙◌, subst, Option, List, [], ◌∷◌, ◌++◌, append-nil, append_assoc,
  String, arith,
}
use tic_tac_tussle.State.{GameId}
use tic_tac_tussle.Commands.{Stamp, CommandEnvelope, GameCommand}
use tic_tac_tussle.Events.{GameEventEnvelope}
use tic_tac_tussle.Store.{EventStore, snapshot}
use tic_tac_tussle.Ports.{BrokerMessage, EventPublisher, NetworkBroadcaster, Anyhow}
use tic_tac_tussle.Service.{GameService, handle, send_to, send_all, catch_up, publish}
use tic_tac_tussle.Service.Handle.{IsGood}
use tic_tac_tussle.Service.Guarantees.{handle-IsGood}
use tic_tac_tussle.Server.{ServerEvent, client_connected, client_disconnected, Inputs, Server, tick}
use tic_tac_tussle.Server.Steps.{Connecting, tick-Preserves}
use tic_tac_tussle.Service.Preserves.{Preserves}

-- The store is good, of the same game, and its log goes on from the earlier one.
abbrev pub Grows : EventStore → EventStore → Type 0
Grows s t =
    IsGood t × (t.game_id ≡ s.game_id) × ((new : List GameEventEnvelope) × (t.log ≡ s.log ++ new))

pub Grows-trans : (s t u : EventStore) → Grows s t → Grows t u → Grows s u
Grows-trans s t u (v, a, (new, p)) (w, b, (more, q)) =
    (w, b ∙ a, (new ++ more, q ∙ ap (λ l. l ++ more) p ∙ append_assoc s.log new more))

module _ {E P N : Type 0} (any : Anyhow E) (port : EventPublisher E P)
    (net : NetworkBroadcaster E N) (stamps : ℕ → Stamp) where
  pub send_all-store :
      (client_id : ℕ) (l : List GameEventEnvelope) (g : GameService P N)
      → (send_all any port net stamps client_id l g).1.store ≡ g.store
  unfolding send_all
  send_all-store client_id [] g = refl
  send_all-store client_id (e ∷ l) g =
      ground (arith, send_all-store client_id l (send_to any port net stamps client_id e.event g).1)

  -- The services whose stores go on from this one.
  abbrev GoesOn : EventStore → GameService P N → Type 0
  GoesOn s g = Grows s g.store

  publish-GoesOn :
      (s : EventStore) (msg : BrokerMessage)
      → Preserves (GoesOn s) (publish any port net stamps msg)
  unfolding publish
  publish-GoesOn s msg = record { apply = λ g h. h }

  catch_up-GoesOn :
      (s : EventStore) (client_id : ℕ)
      → Preserves (GoesOn s) (catch_up any port net stamps client_id)
  unfolding catch_up
  catch_up-GoesOn s client_id = record {
    apply = λ g h. subst (Grows s) (sym (send_all-store client_id (snapshot g.store) g)) h;
  }

  handle-GoesOn :
      (s : EventStore) (cmd : CommandEnvelope)
      → Preserves (GoesOn s) (handle any port net stamps cmd)
  handle-GoesOn s cmd = record {
    apply = λ g h. Grows-trans s g.store _ h (handle-IsGood any port net stamps cmd g h.0);
  }

  -- Whoever may connect.
  abbrev Anybody : ℕ → Type 0
  Anybody c = Unit

  all_welcome : (l : List (Stamp × ServerEvent)) → Connecting Anybody l
  unfolding Connecting
  all_welcome [] = tt
  all_welcome ((stamp, client_connected c) ∷ l) = (tt, all_welcome l)
  all_welcome ((stamp, client_disconnected c) ∷ l) = all_welcome l

  -- A round of the loop keeps a good store good, for the same game, and only appends to its log,
  -- whatever clients connect or leave, whatever their messages and the broker's say, and whatever
  -- fails on the way. So after every number of rounds the log replays, and to a valid game.
  pub tick-IsGood :
      (name_of : ℕ → String) (decode : Bytes → Option GameCommand) (game_id : GameId) (i : Inputs)
      (s : Server P N)
      → IsGood s.service.store
      → Grows s.service.store (tick any port net stamps name_of decode game_id i s).1.service.store
  tick-IsGood name_of decode game_id i s v =
      (tick-Preserves any port net stamps (GoesOn s.service.store) (publish-GoesOn s.service.store)
          (handle-GoesOn s.service.store) Anybody (λ c w. catch_up-GoesOn s.service.store c) name_of
          decode game_id i (all_welcome i.connections)).apply
        s (v, refl, ([], sym (append-nil s.service.store.log)))
