-- ===== src/Redpanda/Delivery.antt =====
-- server/src/adapters/redpanda.rs with server/src/main.rs: one consumer and the game loop together. A
-- message that is handed on waits for the game loop, whose acknowledgement handle is called or
-- dropped as `drain_broker_commands` does; between two messages the server may do anything that
-- keeps its log. `topic` has the payloads of the messages that the consumer reads, by their offsets.
use mathlib.Core.List.Memᴰ
use tic_tac_tussle.Base.{
  ℕ, ◌≡◌, ◌≢◌, ◌⊎◌, inl, inr, refl, sym, ap, subst, ◌∙◌, true, some, Option, List, [], ◌∷◌, Memᴰ,
  Bytes, arith, Outcome, ok, map, if◌then◌else◌,
}
use tic_tac_tussle.State.{Uuid, GameState}
use tic_tac_tussle.Commands.{Stamp, CommandEnvelope, GameCommand, join_game, place_tile, leave_game}
use tic_tac_tussle.Events.{GameEventEnvelope}
use tic_tac_tussle.Decider.{decide}
use tic_tac_tussle.Decider.Branches.{decide-join, decide-place, decide-leave}
use tic_tac_tussle.Store.{EventStore, append_batch}
use tic_tac_tussle.Store.Log.{From, append_batch_lem}
use tic_tac_tussle.Ports.{EventPublisher, NetworkBroadcaster, Anyhow}
use tic_tac_tussle.Service.{GameService, handle}
use tic_tac_tussle.Service.Handle.{
  IsGood, Handled, misaddressed, rejected, delivered, handle_cases, deliver-store,
}
use tic_tac_tussle.Server.{BrokerCommand, Server, acks, broker_command}
use tic_tac_tussle.Service.Guarantees.{handle-IsGood}
use tic_tac_tussle.Server.Acks.{settle-service}
use tic_tac_tussle.Server.Loop.{Grows}
use tic_tac_tussle.Redpanda.Consuming.{consume_cases}
use tic_tac_tussle.Redpanda.{
  decode_command, Reply, acknowledged, dropped, Received, message, Consumer, consume,
}

-- The consumer and the server.
pub record System (P N : Type 0) : Type 0 where
  pub consumer : Consumer
  pub server : Server P N

-- An accepted command has an event.
decide-ne-nil : (s : GameState) (c : GameCommand) → decide s c ≢ ok []
decide-ne-nil s (join_game p name) h = let e = (((decide-join s p name).0 []).0 h).1 in cc
decide-ne-nil s (place_tile p at) h = let e = (((decide-place s p at).0 []).0 h).1 in cc
decide-ne-nil s (leave_game p) h = ground (arith, decide-leave s p)

-- A batch with an event has an envelope, which names the command.
first_of_batch :
    (c : Option Uuid) (envs : List GameEventEnvelope)
    → map (λ e. e.event) envs ≢ []
    → From c envs
    → (env : GameEventEnvelope) × Memᴰ env envs × (env.command_id ≡ c)
first_of_batch c [] some_event from = absurd (some_event refl)
first_of_batch c (env ∷ envs) some_event from = (env, Memᴰ.head refl, from.0)

module _ {E P N : Type 0} (any : Anyhow E) (port : EventPublisher E P)
    (net : NetworkBroadcaster E N) (stamps : ℕ → Stamp)
    (from_slice : Bytes → Option CommandEnvelope) (topic : ℕ → Option Bytes) where
  -- What the acknowledgement handle of a command tells the consumer: it is called, or dropped.
  abbrev pub reply_of : Outcome E (Unit {0}) → Reply
  reply_of r = if acks any r then acknowledged else dropped

  pub data Step (s : System P N) : System P N → Type 0 where
    -- A message is handed on, the game loop takes it, and answers in time.
    answered :
        (offset : ℕ) (payload : Bytes) (b : BrokerCommand)
        → topic offset ≡ some payload
        → decode_command from_slice payload ≡ some b.command_envelope
        → Step s (record {
          consumer =
              consume from_slice
                (message offset
                  (some payload)
                  true
                  (reply_of (handle any port net stamps b.command_envelope s.server.service).0))
                s.consumer;
          server = (broker_command any port net stamps b s.server).1;
        })
    -- Anything else that the consumer receives: an error, a message that is no command, one whose
    -- answer does not come in time, or one that finds the game loop gone.
    unanswered :
        (r : Received)
        → ((offset : ℕ) (payload : Bytes) → r ≢ message offset (some payload) true acknowledged)
        → Step s (record s { consumer = consume from_slice r s.consumer })
    -- Whatever else the server does.
    elsewhere :
        (t : Server P N)
        → Grows s.server.service.store t.service.store
        → Step s (record s { server = t })

  -- The message that the topic has at the offset holds a command, which is for another game, or one of whose events is
  -- in the log.
  abbrev pub IsSettled : ℕ → EventStore → Type 0
  IsSettled n store =
      (payload : Bytes) × (cmd : CommandEnvelope) × (topic n ≡ some payload)
      × (decode_command from_slice payload ≡ some cmd)
      × ((cmd.game_id ≢ store.game_id)
          ⊎ ((env : GameEventEnvelope) × Memᴰ env store.log × (env.command_id ≡ some cmd.id)))

  IsSettled-Grows : (n : ℕ) (s t : EventStore) → Grows s t → IsSettled n s → IsSettled n t
  IsSettled-Grows n s t (good, same, (new, log)) (payload, cmd, here, d, inl other) =
      (payload, cmd, here, d, inl (λ h. other (h ∙ same)))
  IsSettled-Grows n s t (good, same, (new, log)) (payload, cmd, here, d, inr (env, m, id)) =
      (payload, cmd, here, d, inr (env, subst (Memᴰ env) (sym log) (Memᴰ.append_left new m), id))

  -- A command that is acknowledged is for another game, or is in the log.
  acked-IsSettled :
      (cmd : CommandEnvelope) (g : GameService P N)
      → IsGood g.store
      → acks any (handle any port net stamps cmd g).0 ≡ true
      → (cmd.game_id ≢ g.store.game_id)
        ⊎ ((env : GameEventEnvelope) × Memᴰ env (handle any port net stamps cmd g).1.store.log
            × (env.command_id ≡ some cmd.id))
  acked-IsSettled cmd g good acked = go (handle_cases any port net stamps cmd g good) acked
    where
      go :
          {r : Outcome E (Unit {0}) × GameService P N}
          → Handled any port net stamps cmd g r
          → acks any r.0 ≡ true
          → (cmd.game_id ≢ g.store.game_id)
            ⊎ ((env : GameEventEnvelope) × Memᴰ env r.1.store.log × (env.command_id ≡ some cmd.id))
      go (misaddressed ne q) acked = inl ne
      go (rejected s e a h d q) acked =
          absurd (cc (rw (q, any.downcast_ref-from_text (any.to_string e)) at acked))
      go (delivered s evs a h d q) acked =
          let (store, envelopes) = append_batch stamps g.store evs (some cmd.id) in
          let (log, game, same, numbered, from) =
            append_batch_lem stamps g.store evs (some cmd.id) in
          let nonempty = λ (k : map (λ e. e.event) envelopes ≡ []).
            decide-ne-nil s cmd.command (d ∙ ap ok (sym same ∙ k)) in
          let (env, m, id) = first_of_batch (some cmd.id) envelopes nonempty from in
          inr (
            env,
            rw
                (
                  q,
                  deliver-store any port net stamps envelopes evs (record g { store = store }),
                  log,
                )
                (Memᴰ.append_right g.store.log m),
            id,
          )

  pub data Reach (first : System P N) : System P N → Type 0 where
    start : Reach first first
    later : {s t : System P N} → Reach first s → Step s t → Reach first t

  -- The log is good, and what has been committed since the start is settled.
  abbrev IsSound : System P N → System P N → Type 0
  IsSound first s =
      IsGood s.server.service.store
      × ((n : ℕ)
          → Memᴰ n s.consumer.committed
          → Memᴰ n first.consumer.committed ⊎ IsSettled n s.server.service.store)

  -- What a turn commits was committed before, or is the one message it received, acknowledged.
  committed_cases :
      (n : ℕ) (r : Received) (c : Consumer)
      → Memᴰ n (consume from_slice r c).committed
      → Memᴰ n c.committed
        ⊎ ((payload : Bytes) × (cmd : CommandEnvelope) × (r
              ≡ message n (some payload) true acknowledged)
            × (decode_command from_slice payload ≡ some cmd))
  committed_cases n r c m = elim (consume_cases from_slice n r c [] m) [
    | inl old ↦ inl old
    | inr (payload, cmd, here, d) ↦ elim (Memᴰ.cases_cons here) [
      | inl e ↦ inr (payload, cmd, sym e, d)
      | inr k ↦ absurd (Memᴰ.not-nil k)
    ]
  ]

  reply_of-acknowledged : (r : Outcome E (Unit {0})) → reply_of r ≡ acknowledged → acks any r ≡ true
  reply_of-acknowledged r h = ground arith

  same_service :
      (b : BrokerCommand) (s : Server P N)
      → (broker_command any port net stamps b s).1.service
        ≡ (handle any port net stamps b.command_envelope s.service).1
  unfolding broker_command
  same_service b s =
      settle-service any b s (handle any port net stamps b.command_envelope s.service)

  broker_command-Grows :
      (b : BrokerCommand) (s : Server P N)
      → IsGood s.service.store
      → Grows s.service.store (broker_command any port net stamps b s).1.service.store
  broker_command-Grows b s good =
      subst (λ g. Grows s.service.store g.store) (sym (same_service b s))
        (handle-IsGood any port net stamps b.command_envelope s.service good)

  same_offset :
      {n k : ℕ} {p q : Bytes} {r t : Reply}
      → message k (some p) true r ≡ message n (some q) true t
      → n ≡ k
  same_offset e = cc

  Step-IsSound : (first s t : System P N) → Step s t → IsSound first s → IsSound first t
  Step-IsSound first s t (answered offset payload b here d) (good, settled) =
      let run = handle any port net stamps b.command_envelope s.server.service in
      let grows : Grows s.server.service.store
          (broker_command any port net stamps b s.server).1.service.store =
        broker_command-Grows b s.server good in
      (
        grows.0,
        λ n m.
            elim (committed_cases n (message offset (some payload) true (reply_of run.0)) s.consumer
              m) [
                | inl old ↦ elim (settled n old) [
                  | inl before ↦ inl before
                  | inr k ↦ inr (IsSettled-Grows n s.server.service.store _ grows k)
                ]
                | inr (payload', cmd, e, d') ↦ inr (
                  payload,
                  b.command_envelope,
                  rw (same_offset e) here,
                  d,
                  elim (acked-IsSettled b.command_envelope s.server.service good
                      (reply_of-acknowledged run.0 (cc))) [
                        | inl other ↦ inl (λ h. other (h ∙ grows.1))
                        | inr (env, k, id) ↦ inr (env, rw (same_service b s.server) k, id)
                      ],
                )
              ],
      )
  Step-IsSound first s t (unanswered r unread) (good, settled) = (
    good,
    λ n m. elim (committed_cases n r s.consumer m) [
      | inl old ↦ settled n old
      | inr (payload, cmd, e, d) ↦ absurd (unread n payload e)
    ],
  )
  Step-IsSound first s t (elsewhere u grows) (good, settled) = (
    grows.0,
    λ n m. elim (settled n m) [
      | inl old ↦ inl old
      | inr k ↦ inr (IsSettled-Grows n s.server.service.store u.service.store grows k)
    ],
  )

  -- However the consumer, the game loop and the rest of the server take turns, from a good log on:
  -- an offset that is committed was committed at the start, or the message that the topic has at it
  -- holds a command that is for another game or has an event in the log.
  pub Reach-IsSettled :
      (first s : System P N)
      → IsGood first.server.service.store
      → Reach first s
      → (n : ℕ) → Memᴰ n s.consumer.committed
      → Memᴰ n first.consumer.committed ⊎ IsSettled n s.server.service.store
  Reach-IsSettled first s good r = (sound r).1
    where
      sound : {s : System P N} → Reach first s → IsSound first s
      sound start = (good, λ n m. inl m)
      sound (later {s = s} {t = t} past step) = Step-IsSound first s t step (sound past)
