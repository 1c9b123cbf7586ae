-- ===== src/Process/Startup.antt =====
-- services/inventory/src/main.cpp: what main constructs, from the configuration on, in its order. The
-- connection to the database and the gRPC server are parameters; setup and the log lines are in
-- Process/Main.
use choreography_saga_demo.Base.{String, Option}
use choreography_saga_demo.Base.Int.{ℤ}
use choreography_saga_demo.Base.Outcome.{Outcome, ok}
use choreography_saga_demo.Config.{Config, load}
use choreography_saga_demo.Relay.{batch_size}
use choreography_saga_demo.App.{consumed_topics}
use choreography_saga_demo.Envelope.{◌>>=◌}
use choreography_saga_demo.Kafka.Client.{RdKafkaClients, make_producer, make_consumer}

-- `connect` is the constructor of Database; `build_and_start` answers `none` for a null pointer, when
-- the server cannot listen on the address.
pub record Platform (D G : Type 0) : Type 0 where
  pub connect : String → Outcome D
  pub build_and_start : String → Option G

-- The relay works on the database and the producer with `batch` rows at a time.
pub record Parts (D G P K : Type 0) : Type 0 where
  pub config : Config
  pub database : D
  pub producer : P
  pub batch : ℤ
  pub server : Option G
  pub consumer : K

module _ {D G C P K : Type 0} (platform : Platform D G) (rd : RdKafkaClients C P K) where
  unfoldable pub start : (String → Option String) → Outcome (Parts D G P K)
  unfolding load make_producer make_consumer
  start getenv =
      let cfg : Config = load getenv in
      platform.connect cfg.database_url >>= λ database.
      make_producer rd cfg.kafka_brokers >>= λ producer.
      make_consumer rd cfg.kafka_brokers cfg.consumer_group consumed_topics >>= λ consumer.
      ok (record {
        config = cfg;
        database = database;
        producer = producer;
        batch = batch_size cfg.relay_batch_size;
        server = platform.build_and_start cfg.grpc_listen_addr;
        consumer = consumer;
      })
