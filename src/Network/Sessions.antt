-- ===== src/Network/Sessions.antt =====
-- server/src/main.rs over server/src/adapters/renet.rs: a client that connects is sent the log for
-- as long as the loop runs.
use tic_tac_tussle.Base.{ℕ, ◌≡◌, refl, ap, ◌∙◌, true, ok, Option, List, [], ◌∷◌, map, Bytes, String}
use tic_tac_tussle.State.{GameId}
use tic_tac_tussle.Commands.{Stamp, GameCommand}
use tic_tac_tussle.Events.{GameEvent}
use tic_tac_tussle.Ports.{EventPublisher, Anyhow}
use tic_tac_tussle.Service.{bind_ok, ◌>>◌}
use tic_tac_tussle.Service.Preserves.{bind-Preserves}
use tic_tac_tussle.Service.Handle.{IsGood}
use tic_tac_tussle.Service.Guarantees.{PublishReturns}
use tic_tac_tussle.Server.{ServerEvent, client_connected, Server, tick}
use tic_tac_tussle.Server.Main.{Round, transport_update, send_packets, round, main_loop}
use tic_tac_tussle.Server.Runs.{Each, main_loop-Preserves}
use tic_tac_tussle.Network.{Codec, Renet, renet_broadcaster}
use tic_tac_tussle.Network.Sending.{HasSent}
use tic_tac_tussle.Network.Rounds.{NotConnecting, IsInStep, tick-IsInStep, tick_connects}

module _ {E P N : Type 0} (any : Anyhow E) (codec : Codec E GameEvent) (renet : Renet N)
    (port : EventPublisher E P) (stamps : ℕ → Stamp) (c : ℕ) where
  -- The transport sends the client nothing of its own, and does not connect it.
  abbrev pub IsQuiet : (N → N) → Type 0
  IsQuiet f =
      (n : N)
      → renet.is_connected (f n) c ≡ true
      → (renet.is_connected n c ≡ true) × (renet.sent (f n) c ≡ renet.sent n c)

  -- A round in which the client does not connect.
  abbrev pub Elsewhere : Round E N → Type 0
  Elsewhere r =
      NotConnecting c r.inputs.connections × IsQuiet (λ n. (r.update n).1) × IsQuiet r.send_packets

  abbrev IsServerInStep : Server P N → Type 0
  IsServerInStep s = IsInStep any codec renet port stamps c s.service

  quiet-HasSent :
      (f : N → N) (n : N) (evs : List GameEvent)
      → IsQuiet f
      → HasSent any codec renet n c evs
      → HasSent any codec renet (f n) c evs
  quiet-HasSent f n evs quiet h =
      λ on. let (before, same) = quiet n on in ap (map codec.decode_from_slice) same ∙ h before

  module _ (returns : PublishReturns port) (name_of : ℕ → String)
      (decode : Bytes → Option GameCommand) (game_id : GameId) where
    -- A client that is in step stays so through any rounds in which it does not connect again.
    pub main_loop-IsInStep :
        (l : List (Round E N)) (s : Server P N)
        → Each Elsewhere l
        → IsInStep any codec renet port stamps c s.service
        → IsInStep any codec renet port stamps c
            (main_loop any port
              (renet_broadcaster any codec renet)
              stamps
              name_of
              decode
              game_id
              l
              s).1.service
    main_loop-IsInStep l s each h =
        (main_loop-Preserves any port (renet_broadcaster any codec renet) stamps name_of decode
            game_id IsServerInStep Elsewhere
            (λ r a. record {
              apply =
                  λ s h. (h.0, quiet-HasSent (λ n. (r.update n).1) s.service.broadcaster _ a.1 h.1);
            })
            (λ r a. record {
              apply = λ s h.
                  tick-IsInStep any codec renet port stamps c returns name_of decode game_id
                    r.inputs s a.0 h;
            })
            (λ r a. record {
              apply = λ s h. (h.0, quiet-HasSent r.send_packets s.service.broadcaster _ a.2 h.1);
            })
            l each).apply
          s h

    module _ (r : Round E N) (stamp : Stamp) (rest : List (Stamp × ServerEvent)) (s : Server P N)
        (updated : (r.update s.service.broadcaster).0 ≡ ok tt)
        (first : r.inputs.connections ≡ (stamp, client_connected c) ∷ rest)
        (others : NotConnecting c rest)
        (none_yet : renet.sent (r.update s.service.broadcaster).1 c ≡ [])
        (quiet : IsQuiet r.send_packets) (good : IsGood s.service.store) where
      round-IsInStep :
          IsServerInStep
            (round any port (renet_broadcaster any codec renet) stamps name_of decode game_id r s).1
      unfolding round
      round-IsInStep =
          let net = renet_broadcaster any codec renet in
          let update = transport_update any port net stamps r in
          let turn = tick any port net stamps name_of decode game_id r.inputs in
          let send = send_packets any port net stamps r in
          rw (bind_ok update (λ u. turn >> send) s (rw updated refl)) (
            (bind-Preserves IsServerInStep
                {Pre = λ t. IsGood t.service.store × (renet.sent t.service.broadcaster c ≡ [])} turn
                (λ u. send)
                (record {
                  apply = λ t h.
                      tick_connects any codec renet port stamps c returns name_of decode game_id
                        stamp rest r.inputs t first others h.1 h.0;
                })
                (λ u. record {
                  apply =
                      λ t h. (h.0, quiet-HasSent r.send_packets t.service.broadcaster _ quiet h.1);
                })).apply
              (update s).1 (good, none_yet))

      -- A client that connects in a round, ahead of any other, has been sent the log after every
      -- later round, while it stays connected and does not connect again.
      pub connection-IsInStep :
          (l : List (Round E N))
          → Each Elsewhere l
          → IsInStep any codec renet port stamps c
              (main_loop any port
                (renet_broadcaster any codec renet)
                stamps
                name_of
                decode
                game_id
                (r ∷ l)
                s).1.service
      unfolding main_loop
      connection-IsInStep l each =
          let net = renet_broadcaster any codec renet in
          (bind-Preserves IsServerInStep {Pre = λ t. t ≡ s}
              (round any port net stamps name_of decode game_id r)
              (λ u. main_loop any port net stamps name_of decode game_id l)
              (record { apply = λ t e. rw e round-IsInStep })
              (λ u. record { apply = λ t h. main_loop-IsInStep l t each h })).apply
            s refl
