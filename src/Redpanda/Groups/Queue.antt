-- ===== src/Redpanda/Groups/Queue.antt =====
-- server/src/adapters/redpanda.rs: what the consumer groups together hand on to the game loop.
use tic_tac_tussle.Base.{
  ℕ, zero, suc, ◌+◌, ◌*◌, ◌≡◌, refl, sym, ap, ◌∙◌, Bool, true, Option, none, some, List, [], ◌∷◌,
  ◌++◌, String, Bytes, subst, append-nil, if◌then◌else◌, arith,
}
use tic_tac_tussle.Commands.{CommandEnvelope}
use tic_tac_tussle.Redpanda.{
  decode_command, Reply, acknowledged, dropped, timed_out, Received, message, failure, Consumer,
  forward, consume,
}
use tic_tac_tussle.Redpanda.Groups.{
  Task, Pool, consumer_of, task_turn, receive, turn, run_tasks, deliveries,
  spawn_parallel_consumers,
}

-- A command of the topic, with its offset.
abbrev pub Order : Type 0
Order = ℕ × CommandEnvelope

abbrev pub count : (Order → Bool) → List Order → ℕ
count p [] = 0
count p (a ∷ l) = if p a then suc (count p l) else count p l

count-append : (p : Order → Bool) (l k : List Order) → count p (l ++ k) ≡ count p l + count p k
count-append p [] k = omega arith
count-append p (a ∷ l) k = ground (arith, count-append p l k)

module _ (from_slice : Bytes → Option CommandEnvelope) where
  -- The command that a payload holds, if it holds one.
  abbrev pub command_in : ℕ → Bytes → List Order
  command_in offset payload = elim (decode_command from_slice payload) [
    | some cmd ↦ (offset, cmd) ∷ []
    | none ↦ []
  ]

  -- The commands of a topic.
  abbrev pub commands : List (ℕ × Option Bytes) → List Order
  commands [] = []
  commands ((offset, none) ∷ topic) = commands topic
  commands ((offset, some payload) ∷ topic) = command_in offset payload ++ commands topic

  abbrev handed : Received → List Order
  handed (message offset none is_open reply) = []
  handed (message offset (some payload) is_open reply) = command_in offset payload
  handed failure = []

  abbrev IsOpen : Received → Type 0
  IsOpen (message offset payload is_open reply) = is_open ≡ true
  IsOpen failure = Unit {0}

  forward-handed :
      (offset : ℕ) (cmd : CommandEnvelope) (reply : Reply) (c : Consumer)
      → ((forward offset cmd true reply c).forwarded ≡ c.forwarded ++ (offset, cmd) ∷ [])
        × ((forward offset cmd true reply c).running ≡ c.running)
  forward-handed offset cmd acknowledged c = (refl, refl)
  forward-handed offset cmd dropped c = (refl, refl)
  forward-handed offset cmd timed_out c = (refl, refl)

  answer_handed :
      (offset : ℕ) (is_open : Bool) (reply : Reply) (c : Consumer) (o : Option CommandEnvelope)
      → is_open ≡ true
      → let d : Consumer = elim o [ some cmd ↦ forward offset cmd is_open reply c | none ↦ c ] in
        (d.forwarded ≡ c.forwarded ++ elim o [ some cmd ↦ (offset, cmd) ∷ [] | none ↦ [] ])
        × (d.running ≡ c.running)
  answer_handed offset is_open reply c none h = (sym (append-nil c.forwarded), refl)
  answer_handed offset is_open reply c (some cmd) h = rw h (forward-handed offset cmd reply c)

  consume-handed :
      (r : Received) (c : Consumer)
      → IsOpen r
      → ((consume from_slice r c).forwarded ≡ c.forwarded ++ handed r)
        × ((consume from_slice r c).running ≡ c.running)
  unfolding consume
  consume-handed failure c o = (sym (append-nil c.forwarded), refl)
  consume-handed (message offset none is_open reply) c o = (sym (append-nil c.forwarded), refl)
  consume-handed (message offset (some payload) is_open reply) c o =
      answer_handed offset is_open reply c (decode_command from_slice payload) o

  -- What is still to be handed on.
  abbrev due : List Received → List Order
  due [] = []
  due (r ∷ rest) = handed r ++ due rest

  abbrev AllOpen : List Received → Type 0
  AllOpen [] = Unit {0}
  AllOpen (r ∷ rest) = IsOpen r × AllOpen rest

  deliveries-AllOpen :
      (reply : ℕ → Reply) (topic : List (ℕ × Option Bytes)) → AllOpen (deliveries reply topic)
  deliveries-AllOpen reply [] = tt
  deliveries-AllOpen reply ((offset, payload) ∷ topic) = (refl, deliveries-AllOpen reply topic)

  due-deliveries :
      (reply : ℕ → Reply) (topic : List (ℕ × Option Bytes))
      → due (deliveries reply topic) ≡ commands topic
  due-deliveries reply [] = refl
  due-deliveries reply ((offset, none) ∷ topic) = due-deliveries reply topic
  due-deliveries reply ((offset, some payload) ∷ topic) =
      ap (◌++◌ (command_in offset payload)) (due-deliveries reply topic)

  abbrev AllReady : List Task → Type 0
  AllReady [] = Unit {0}
  AllReady (t ∷ tasks) = ((t.running ≡ true) × AllOpen t.pending) × AllReady tasks

  -- Nothing is left to receive.
  abbrev pub IsDone : List Task → Type 0
  IsDone [] = Unit {0}
  IsDone (t ∷ tasks) = (t.pending ≡ []) × IsDone tasks

  module _ (p : Order → Bool) where
    abbrev left : List Task → ℕ
    left [] = 0
    left (t ∷ tasks) = count p (due t.pending) + left tasks

    left-IsDone : (tasks : List Task) → IsDone tasks → left tasks ≡ 0
    left-IsDone [] h = refl
    left-IsDone (t ∷ tasks) (e, h) = let rest = left-IsDone tasks h in rw e (omega arith)

    -- A turn loses no order: what is on the channel and what is due are as many as before.
    abbrev Keeps : List Order → List Received → Task × List Order → Type 0
    Keeps channel l (next, after) =
        ((next.running ≡ true) × AllOpen next.pending)
        × (count p after + count p (due next.pending) ≡ count p channel + count p (due l))

    receive-Keeps :
        (t : Task) (r : Received) (rest : List Received) (channel : List Order)
        → t.running ≡ true
        → AllOpen (r ∷ rest)
        → Keeps channel (r ∷ rest) (receive from_slice t r rest channel)
    receive-Keeps t r rest channel on (now, o) =
        let (more, still) = consume-handed r (consumer_of t channel) now in
        let c1 = count-append p channel (handed r) in
        let c2 = count-append p (handed r) (due rest) in ((still ∙ on, o), rw more (omega arith))

    task_turn-Keeps :
        (t : Task) (l : List Received) (channel : List Order)
        → t.running ≡ true
        → t.pending ≡ l
        → AllOpen l
        → Keeps channel l (task_turn from_slice t l channel)
    task_turn-Keeps t [] channel on e o = rw e ((on, tt), refl)
    task_turn-Keeps t (r ∷ rest) channel on e o =
        subst
          (λ b.
            Keeps channel (r ∷ rest)
              (if b then receive from_slice t r rest channel else (t, channel)))
          (sym on) (receive-Keeps t r rest channel on o)

    turn-Keeps :
        (i : ℕ) (tasks : List Task) (channel : List Order)
        → AllReady tasks
        → let (next, after) = turn from_slice i tasks channel in
          AllReady next × (count p after + left next ≡ count p channel + left tasks)
    unfolding turn
    turn-Keeps i [] channel h = (tt, refl)
    turn-Keeps zero (t ∷ tasks) channel ((on, o), h) =
        let (ready, kept) = task_turn-Keeps t t.pending channel on refl o in
        ((ready, h), omega arith)
    turn-Keeps (suc i) (t ∷ tasks) channel (now, h) =
        let (ready, kept) = turn-Keeps i tasks channel h in ((now, ready), omega arith)

    run_tasks-Keeps :
        (schedule : List ℕ) (pool : Pool)
        → AllReady pool.tasks
        → let after = run_tasks from_slice schedule pool in
          count p after.channel + left after.tasks ≡ count p pool.channel + left pool.tasks
    unfolding run_tasks
    run_tasks-Keeps [] pool h = refl
    run_tasks-Keeps (i ∷ schedule) pool h =
        let (tasks, channel) = turn from_slice i pool.tasks pool.channel in
        let (ready, kept) = turn-Keeps i pool.tasks pool.channel h in
        run_tasks-Keeps schedule (record { tasks = tasks; channel = channel }) ready ∙ kept

    -- Where each of the consumer groups receives the whole topic, whatever replies it waits for,
    -- while the game loop still runs, and the tasks take their turns in any order until nothing is
    -- left to receive: of any kind of command, the game loop is handed twice as many as the topic
    -- has.
    pub run_tasks_lem :
        (topic : List (ℕ × Option Bytes)) (replies : String → ℕ → Reply) (schedule : List ℕ)
        → let after =
            run_tasks from_slice schedule
              (spawn_parallel_consumers (λ g. deliveries (replies g) topic)) in
          IsDone after.tasks → count p after.channel ≡ 2 * count p (commands topic)
    unfolding spawn_parallel_consumers
    run_tasks_lem topic replies schedule done =
        let pool = spawn_parallel_consumers (λ g. deliveries (replies g) topic) in
        let a : String = "game-server-loop" in
        let b : String = "game-audit-log" in
        let kept = run_tasks-Keeps schedule pool (
          (refl, deliveries-AllOpen (replies a) topic),
          ((refl, deliveries-AllOpen (replies b) topic), tt),
        ) in
        let e1 = ap (count p) (due-deliveries (replies a) topic) in
        let e2 = ap (count p) (due-deliveries (replies b) topic) in
        let none_left = left-IsDone (run_tasks from_slice schedule pool).tasks done in omega arith
