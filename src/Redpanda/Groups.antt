-- ===== src/Redpanda/Groups.antt =====
-- server/src/adapters/redpanda.rs: `spawn_parallel_consumers`. Every consumer group receives the whole
-- topic, in a task of its own, and all of them hand their commands on over one channel. A schedule
-- says which task takes the next turn; a task is named by its position.
pub mod Queue
use tic_tac_tussle.Base.{
  ℕ, zero, suc, Bool, true, Option, none, some, List, [], ◌∷◌, String, Bytes, map, if◌then◌else◌,
}
use tic_tac_tussle.Commands.{CommandEnvelope}
use tic_tac_tussle.Redpanda.{Reply, Received, message, Consumer, consume}

-- `CONSUMER_GROUPS`
abbrev pub consumer_groups : List String
consumer_groups = "game-server-loop" ∷ "game-audit-log" ∷ []

-- The task of a group: what it will still receive, what it has committed, and whether it goes on.
pub record Task : Type 0 where
  pub group : String
  pub pending : List Received
  pub committed : List ℕ
  pub running : Bool

-- The tasks, and the channel that they share.
pub record Pool : Type 0 where
  pub tasks : List Task
  pub channel : List (ℕ × CommandEnvelope)

-- A task with the channel, as the state of `consumer_loop`.
abbrev pub consumer_of : Task → List (ℕ × CommandEnvelope) → Consumer
consumer_of t channel = record { forwarded = channel; committed = t.committed; running = t.running }

module _ (from_slice : Bytes → Option CommandEnvelope) where
  -- One turn of a task: one message.
  abbrev pub receive :
      Task
      → Received
      → List Received
      → List (ℕ × CommandEnvelope)
      → Task × List (ℕ × CommandEnvelope)
  receive t r rest channel =
      let c = consume from_slice r (consumer_of t channel) in
      (record t { pending = rest; committed = c.committed; running = c.running }, c.forwarded)

  abbrev pub task_turn :
      Task → List Received → List (ℕ × CommandEnvelope) → Task × List (ℕ × CommandEnvelope)
  task_turn t [] channel = (t, channel)
  task_turn t (r ∷ rest) channel = if t.running then receive t r rest channel else (t, channel)

  unfoldable pub turn :
      ℕ → List Task → List (ℕ × CommandEnvelope) → List Task × List (ℕ × CommandEnvelope)
  turn i [] channel = ([], channel)
  turn zero (t ∷ tasks) channel =
      let (next, after) = task_turn t t.pending channel in (next ∷ tasks, after)
  turn (suc i) (t ∷ tasks) channel = let (rest, after) = turn i tasks channel in (t ∷ rest, after)

  -- The tasks under a schedule.
  unfoldable pub run_tasks : List ℕ → Pool → Pool
  unfolding turn
  run_tasks [] pool = pool
  run_tasks (i ∷ schedule) pool =
      let (tasks, channel) = turn i pool.tasks pool.channel in
      run_tasks schedule (record { tasks = tasks; channel = channel })

-- What a group receives of a topic, while the game loop still runs: every message in its order, with
-- the reply that its own wait ends with.
abbrev pub deliveries : (ℕ → Reply) → List (ℕ × Option Bytes) → List Received
deliveries reply [] = []
deliveries reply ((offset, payload) ∷ topic) =
    message offset payload true (reply offset) ∷ deliveries reply topic

-- `spawn_parallel_consumers`, over what each of the groups receives.
unfoldable pub spawn_parallel_consumers : (String → List Received) → Pool
spawn_parallel_consumers received = record {
  tasks =
      map (λ g. record { group = g; pending = received g; committed = []; running = true })
        consumer_groups;
  channel = [];
}
