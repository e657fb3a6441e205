-- ===== src/Redpanda/Setup.antt =====
-- server/src/adapters/redpanda.rs: `BrokerConfig` and `RedpandaPublisher::new`, and the settings of the
-- three kinds of clients. The crates rdkafka and tokio are parameters.
use tic_tac_tussle.Base.{
  ◌≡◌, refl, Option, none, some, List, [], ◌∷◌, String, Outcome, ok, or_panic, map, ℕ,
}
use tic_tac_tussle.Ports.{Action, Anyhow}
use tic_tac_tussle.Service.{pure, lift, ◌>>=◌, ◌>>◌, map_err}

pub record BrokerConfig : Type 0 where
  pub brokers : String
  pub events_topic : String
  pub commands_topic : String

-- The values that `ClientConfig::set` gives the keys.
abbrev pub ClientConfig : Type 0
ClientConfig = List (String × String)

-- The settings of the producer.
abbrev pub producer_config : String → ClientConfig
producer_config brokers =
    ("bootstrap.servers", brokers)
    ∷ ("message.timeout.ms", "5000")
    ∷ ("enable.idempotence", "true")
    ∷ ("acks", "all")
    ∷ []

-- `build_admin`'s settings.
abbrev pub admin_config : String → ClientConfig
admin_config brokers = ("bootstrap.servers", brokers) ∷ []

-- The settings of a consumer of a group.
abbrev pub consumer_config : String → String → ClientConfig
consumer_config brokers group =
    ("bootstrap.servers", brokers)
    ∷ ("group.id", group)
    ∷ ("auto.offset.reset", "earliest")
    ∷ ("enable.auto.commit", "false")
    ∷ ("auto.commit.interval.ms", "1000")
    ∷ ("session.timeout.ms", "6000")
    ∷ []

-- `NewTopic`: the name, and the numbers of partitions and of replicas.
pub record NewTopic : Type 0 where
  pub name : String
  pub num_partitions : ℕ
  pub replication : ℕ

-- The clients' constructors, the runtime, and what `create_topics` does to the cluster; `none` is the
-- error that it returns.
pub record Rdkafka (E P R A W : Type 0) : Type 0 where
  pub create_producer : ClientConfig → Outcome E P
  pub create_runtime : Outcome E R
  pub create_admin : ClientConfig → Option A
  pub create_topics : A → List NewTopic → W → Option (List (Outcome String String)) × W

-- A consumer's constructor, and `subscribe`; `none` is an error of either.
pub record Subscriber (C : Type 0) : Type 0 where
  pub create_consumer : ClientConfig → Option C
  pub subscribe : C → List String → Option C

-- How `consumer_loop` starts: `none` is the panic of either `expect`.
unfoldable pub open_consumer : {C : Type 0} → Subscriber C → BrokerConfig → String → Option C
open_consumer lib cfg group = elim (lib.create_consumer (consumer_config cfg.brokers group)) [
  | some c ↦ lib.subscribe c (cfg.commands_topic ∷ [])
  | none ↦ none
]

-- The fields of `RedpandaPublisher`.
pub record RedpandaPublisher (P R : Type 0) : Type 0 where
  pub producer : P
  pub events_topic : String
  pub commands_topic : String
  pub rt : R

module _ {E P R A W : Type 0} (any : Anyhow E) (lib : Rdkafka E P R A W) where
  -- `build_admin`, whose error is a panic.
  unfoldable pub build_admin : String → Outcome E A
  build_admin brokers = or_panic (lib.create_admin (admin_config brokers))

  -- `ensure_topics`: what comes of the topics is only logged.
  unfoldable pub ensure_topics : A → List String → Action E W (Unit {0})
  ensure_topics admin topics w =
      let asked = map (λ t. record { name = t; num_partitions = 1; replication = 1 }) topics in
      (ok tt, (lib.create_topics admin asked w).1)

  -- `RedpandaPublisher::new`
  unfoldable pub new : BrokerConfig → Action E W (RedpandaPublisher P R)
  unfolding build_admin ensure_topics
  new cfg = do
    producer ←
        lift (
          map_err (any.context "FutureProducer")
            (lib.create_producer (producer_config cfg.brokers)))
    rt ← lift (map_err (any.context "publisher runtime") lib.create_runtime)
    admin ← lift (build_admin cfg.brokers)
    ensure_topics admin (cfg.events_topic ∷ cfg.commands_topic ∷ [])
    pure (record {
      producer = producer;
      events_topic = cfg.events_topic;
      commands_topic = cfg.commands_topic;
      rt = rt;
    })

  -- Where the clients and the runtime can be created, the publisher is there, whatever comes of its
  -- topics: it writes to those of the configuration.
  pub new_lem :
      (cfg : BrokerConfig) (w : W) {producer : P} {rt : R} {admin : A}
      → lib.create_producer (producer_config cfg.brokers) ≡ ok producer
      → lib.create_runtime ≡ ok rt
      → lib.create_admin (admin_config cfg.brokers) ≡ some admin
      → (new cfg w).0
        ≡ ok (record {
          producer = producer;
          events_topic = cfg.events_topic;
          commands_topic = cfg.commands_topic;
          rt = rt;
        })
  unfolding new build_admin ensure_topics
  new_lem cfg w p r a = rw (p, r, a) refl
