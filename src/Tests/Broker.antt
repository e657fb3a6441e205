-- ===== src/Tests/Broker.antt =====
-- The broker's adapter, on three messages: a dropped one, one that is no command and a confirmed one.
use tic_tac_tussle.Base.{
  ℕ, ◌*◌, Bool, ◌==◌, if◌then◌else◌, true, false, ◌≡◌, refl, Option, some, none, List, [], ◌∷◌,
  ◌++◌, Bytes, String, ok,
}
use tic_tac_tussle.Commands.{CommandEnvelope, place_tile}
use tic_tac_tussle.Redpanda.{
  Kafka, acknowledged, dropped, Received, message, failure, Consumer, consumer_loop, consume, Reply,
}
use tic_tac_tussle.Redpanda.Groups.{Pool, deliveries, turn, run_tasks, spawn_parallel_consumers}
use tic_tac_tussle.Redpanda.Groups.Queue.{Order, count, commands, IsDone, run_tasks_lem}
use tic_tac_tussle.Tests.Session.{Failure, order}

abbrev Record : Type 0
Record = String × String × Bytes

abbrev kafka : Kafka Failure (List Record)
kafka = record {
  events_topic = "events";
  commands_topic = "commands";
  event_json = λ env. ok (123 ∷ env.sequence ∷ []);
  command_json = λ cmd. ok (123 ∷ cmd.id ∷ []);
  event_key = λ env. "5/0";
  command_key = λ cmd. "9";
  send = λ topic key payload l. (false, l ++ (topic, key, payload) ∷ []);
}

abbrev from_slice : Bytes → Option CommandEnvelope
from_slice (b ∷ (id ∷ [])) = some (order id (place_tile 1 4))
from_slice _ = none

abbrev traffic : List Received
traffic =
    message 7 (some (32 ∷ 123 ∷ 5 ∷ [])) true dropped
    ∷ message 8 (some (9 ∷ [])) true acknowledged
    ∷ failure
    ∷ message 9 (some (123 ∷ 6 ∷ [])) true acknowledged
    ∷ []

abbrev idle : Consumer
idle = record { forwarded = []; committed = []; running = true }

-- The offset 9 is committed after 7 was not, and a committed offset stands for all before it.
overtaken : (consumer_loop from_slice traffic idle).committed ≡ 9 ∷ []
unfolding consumer_loop
overtaken = refl

-- A topic with two commands and a text between them, and a schedule of the two groups.
abbrev topic : List (ℕ × Option Bytes)
topic =
    (7, some (32 ∷ 123 ∷ 5 ∷ [])) ∷ (8, some (9 ∷ [])) ∷ (9, some (123 ∷ 6 ∷ [])) ∷ (10, none) ∷ []

abbrev replies : String → ℕ → Reply
replies group offset = if offset == 7 then acknowledged else dropped

abbrev schedule : List ℕ
schedule = 1 ∷ 0 ∷ 1 ∷ 1 ∷ 0 ∷ 0 ∷ 0 ∷ 1 ∷ 0 ∷ []

abbrev of_five : Order → Bool
of_five (offset, cmd) = cmd.id == 5

abbrev pool : Pool
pool = run_tasks from_slice schedule (spawn_parallel_consumers (λ g. deliveries (replies g) topic))

all_received : IsDone from_slice pool.tasks
unfolding run_tasks turn spawn_parallel_consumers consume
all_received = (refl, (refl, tt))

run_tasks_lem_example : count of_five pool.channel ≡ 2 * count of_five (commands from_slice topic)
run_tasks_lem_example = run_tasks_lem from_slice of_five topic replies schedule all_received
