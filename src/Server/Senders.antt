-- ===== src/Server/Senders.antt =====
-- server/src/main.rs: `drain_client_commands` and the sender of a message.
use tic_tac_tussle.Base.{ℕ, ◌≡◌, refl, ◌∙◌, Option, some, List, [], ◌∷◌, ◌++◌, Bytes, ok}
use tic_tac_tussle.State.{GameState}
use tic_tac_tussle.Commands
use tic_tac_tussle.Commands.{Stamp, CommandEnvelope, GameCommand}
use tic_tac_tussle.Events.{GameEvent}
use tic_tac_tussle.Decider.{hydrate, decide}
use tic_tac_tussle.Store.{EventStore, events}
use tic_tac_tussle.Ports.{command, EventPublisher, NetworkBroadcaster, Anyhow}
use tic_tac_tussle.Service.{GameService, pure, warn_on_err, bind_ok, publish, handle}
use tic_tac_tussle.Service.Works.{warn_on_err-Works}
use tic_tac_tussle.Service.Preserves.{Leads, bind-Preserves, warn_on_err-Preserves, pure-Preserves}
use tic_tac_tussle.Service.Guarantees.{PublishReturns, handle_accepted, publish-returns}
use tic_tac_tussle.Server.{
  submit, drain_client_commands, client_command, on_decoded, client_messages, with_stamps,
}

module _ {E P N : Type 0} (any : Anyhow E) (port : EventPublisher E P)
    (net : NetworkBroadcaster E N) (stamps : ℕ → Stamp) (publishes : PublishReturns port) where
  -- The service has this store, or one with this log.
  abbrev pub Has : EventStore → GameService P N → Type 0
  Has store g = g.store ≡ store

  abbrev pub Logs : List GameEvent → GameService P N → Type 0
  Logs l g = events g.store ≡ l

  pub submit_accepted :
      (cmd : CommandEnvelope) (store : EventStore) (s : GameState) (evs : List GameEvent)
      → cmd.game_id ≡ store.game_id
      → hydrate (events store) ≡ some s
      → decide s cmd.command ≡ ok evs
      → Leads (Has store) (Logs (events store ++ evs)) (submit any port net stamps cmd)
  unfolding submit
  submit_accepted cmd store s evs same h d = record {
    apply = λ g has.
        let published = warn_on_err (publish any port net stamps (command cmd)) in
        let (ran, kept) =
          (warn_on_err-Works {Pre = Has store} {Post = Has store}
              (publish any port net stamps (command cmd))
              (λ g holds.
                let (returns, kept) =
                  publish-returns any port net stamps publishes (command cmd) g in
                (returns, kept ∙ holds))).apply
            g has in
        rw (bind_ok published (λ u. warn_on_err (handle any port net stamps cmd)) g ran) (
          (warn_on_err-Preserves (Logs (events store ++ evs)) {Pre = Has store}
              (handle any port net stamps cmd)
              (record {
                apply = λ g has.
                    (handle_accepted any port net stamps cmd g s evs (rw has same) (rw has h) d).0
                    ∙ rw has refl;
              })).apply
            (published g).1 kept);
  }

  -- A message goes into the log for the player that it names, whoever sent it: where the publisher
  -- returns and decide accepts the command, its events are in the log after the message of any
  -- client.
  pub client_messages_lem :
      (sender : ℕ) (raw : Bytes) (cmd : GameCommand) (decode : Bytes → Option GameCommand)
      (clock : ℕ → Stamp) (g : GameService P N) (s : GameState) (evs : List GameEvent)
      → decode raw ≡ some cmd
      → hydrate (events g.store) ≡ some s
      → decide s cmd ≡ ok evs
      → let messages = with_stamps clock 0 (client_messages (sender ∷ []) (λ d. raw ∷ [])) in
        events (drain_client_commands any port net stamps decode g.store.game_id messages g).1.store
        ≡ events g.store ++ evs
  unfolding client_messages drain_client_commands client_command on_decoded Commands.new
  client_messages_lem sender raw cmd decode clock g s evs d h k =
      let cmd_env = Commands.new (clock 0) g.store.game_id cmd in
      let logs = Logs (events g.store ++ evs) in
      rw d (
        (bind-Preserves logs (submit any port net stamps cmd_env) (λ u. pure tt)
            (submit_accepted cmd_env g.store s evs refl h k) (λ u. pure-Preserves logs)).apply
          g refl)
