-- ===== src/Session/Opening.antt =====
-- client/src/main.rs: how a client starts, before the server answers.
use mathlib.Core.List
use tic_tac_tussle.Base.{
  ℕ, ◌≡◌, refl, subst, inl, inr, none, Option, Option-cases, some, List, [], ◌∷◌, Bytes, String, ok,
}
use tic_tac_tussle.State.{GameId, default}
use tic_tac_tussle.Commands.{Stamp, GameCommand}
use tic_tac_tussle.Events.{GameEvent}
use tic_tac_tussle.Ports.{EventPublisher, Anyhow}
use tic_tac_tussle.Service.Handle.{IsGood}
use tic_tac_tussle.Service.Guarantees.{PublishReturns}
use tic_tac_tussle.Server.{Server, ServerEvent, client_connected}
use tic_tac_tussle.Server.Main.{Round, main_loop}
use tic_tac_tussle.Server.Runs.{Each}
use tic_tac_tussle.Network.{Codec, Renet, renet_broadcaster}
use tic_tac_tussle.Network.Rounds.{NotConnecting}
use tic_tac_tussle.Network.Sessions.{IsQuiet, Elsewhere, connection-IsInStep}
use tic_tac_tussle.Client
use tic_tac_tussle.Client.{receive_server_events, joins, pair_of}
use tic_tac_tussle.Client.Screen.{Float}
use tic_tac_tussle.Client.Display.{Palette, setup}
use tic_tac_tussle.Client.Frame.{App, Inputs, System, run_systems, on_client, update_systems, frame}
use tic_tac_tussle.Client.Frame.Keeps.{KnowsPair, HasReplayed, update_systems-HasReplayed}
use tic_tac_tussle.Session.{IsBeginning}

module _ {F K : Type 0} (float : Float F) (palette : Palette F K) where
  -- The app that `main` builds, once `setup` has run; of the status bar, its text and colour.
  unfoldable pub startup : App F K
  startup = record {
    client = Client.new;
    pieces = [];
    pieces_read = 0;
    scene = setup float palette;
    status = some (record { text = "Waiting for opponent…"; color = palette.white });
    status_read = 0;
  }

  module _ {E : Type 0} (commands : Codec E GameCommand) (codec : Codec E GameEvent) (id : ℕ)
      (username : String) where
    -- The app after frames in which no message has come in yet.
    pub data Early : App F K → Type 0 where
      started : Early startup
      framed :
          (i : Inputs F) {order : List (System F K)} {a b : App F K}
          → Early a
          → i.received ≡ []
          → List.Permᴰ order (update_systems float palette commands codec id username i)
          → frame float palette commands codec id username order i a ≡ some b
          → Early b

    Early-HasReplayed : {a : App F K} → Early a → HasReplayed [] default a.client
    unfolding startup Client.new frame receive_server_events
    Early-HasReplayed started = (refl, refl, inl refl)
    Early-HasReplayed (framed i {order} {a} {b} past nothing p run) =
        elim (Option-cases (run_systems order a)) [
          | inl stuck ↦ cc (rw (frame, stuck) at run)
          | inr (c, ran) ↦
              let kept =
                update_systems-HasReplayed [] default float palette commands codec id username i p a
                  c ran (Early-HasReplayed past) in
              let same : c ≡ b =
                cc (rw (frame, ran, on_client, nothing, receive_server_events) at run) in
              subst (λ d. HasReplayed [] default d.client) same kept
        ]

no_pair_yet : (c : Client.Client) → KnowsPair [] c → c.maybe_pair ≡ none
unfolding joins pair_of
no_pair_yet c (inl unknown) = unknown
no_pair_yet c (inr ([], rest, split, known)) = known
no_pair_yet c (inr (e ∷ first, rest, split, known)) = cc

module _ {E P N F K : Type 0} (any : Anyhow E) (codec : Codec E GameEvent) (renet : Renet N)
    (port : EventPublisher E P) (stamps : ℕ → Stamp) (returns : PublishReturns port)
    (name_of : ℕ → String) (decode : Bytes → Option GameCommand) (game_id : GameId)
    (float : Float F) (palette : Palette F K) (commands : Codec E GameCommand) (username : String)
    (id : ℕ) where
  -- A client that starts and has run any frames, whose systems ran in any order and in which no
  -- message had come in, and whose connection then reaches the server in a round, ahead of any
  -- other event and with nothing sent to it before, is at the beginning of a session after every
  -- later round: it has received nothing, has the first state and no pair, and the messages that
  -- the server has sent it are those of the whole log, while it stays connected; where the log of
  -- the server is good, the publisher returns, and the transport sends the client nothing of its
  -- own and does not connect it again.
  pub connection-IsBeginning :
      (app : App F K) (r : Round E N) (stamp : Stamp) (rest : List (Stamp × ServerEvent))
      (l : List (Round E N)) (s : Server P N)
      → Early float palette commands codec id username app
      → IsGood s.service.store
      → (r.update s.service.broadcaster).0 ≡ ok tt
      → r.inputs.connections ≡ (stamp, client_connected id) ∷ rest
      → NotConnecting id rest
      → renet.sent (r.update s.service.broadcaster).1 id ≡ []
      → IsQuiet any codec renet port stamps id r.send_packets
      → Each (Elsewhere any codec renet port stamps id) l
      → IsBeginning any codec renet port stamps name_of decode game_id float palette commands
          username id
          (record {
            server =
                (main_loop any port
                  (renet_broadcaster any codec renet)
                  stamps
                  name_of
                  decode
                  game_id
                  (r ∷ l)
                  s).1;
            app = app;
            taken = [];
          })
  connection-IsBeginning app r stamp rest l s early good updated first others none_yet quiet each =
      let (received, state, pair) =
        Early-HasReplayed float palette commands codec id username early in
      record {
        in_step =
            connection-IsInStep any codec renet port stamps id returns name_of decode game_id r
              stamp rest s updated first others none_yet quiet good l each;
        nothing_taken = refl;
        nothing_received = received;
        no_pair = no_pair_yet app.client pair;
        first_state = state;
      }
