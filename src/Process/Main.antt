-- ===== src/Process/Main.antt =====
-- services/inventory/src/main.cpp: the lines of main around its threads, with setup, shutdown and their
-- log lines. Process/Startup has what main constructs.
use choreography_saga_demo.Base.{String, Option, ◌≡◌, inl, inr, ◌⊎◌, ◌++◌, List, [], ◌∷◌, arith}
use choreography_saga_demo.Base.Outcome.{
  Error, Outcome, throws, Proc, ◌>>=◌, ◌>>◌, pure, lift, modify, Outcome-cases,
}
use choreography_saga_demo.Config.{Config, load}
use choreography_saga_demo.Json.{Json}
use choreography_saga_demo.Relay.{batch_size}
use choreography_saga_demo.App.{consumed_topics}
use choreography_saga_demo.Kafka.Client.{RdKafkaClients, make_producer, make_consumer}
use choreography_saga_demo.Obs.Log.{log_info}
use choreography_saga_demo.Obs.Host.{Moment}
use choreography_saga_demo.Obs.Setup.{OtelSdk, Globals, setup, shutdown}
use choreography_saga_demo.Obs.Handled.{emit-cases}
use mathlib.Core.Path.{subst}
use choreography_saga_demo.Process.Startup.{Platform, Parts, start}

module _ {J : Type 0} (lib : Json J) where
  abbrev pub hello : Config → List (String × J)
  hello cfg = ("brokers", lib.text cfg.kafka_brokers) ∷ ("grpc", lib.text cfg.grpc_listen_addr) ∷ []

  abbrev pub listening : Config → List (String × J)
  listening cfg = ("addr", lib.text cfg.grpc_listen_addr) ∷ []

module _ {H J R : Type 0} (lib : Json J) where
  abbrev pub say : Moment → String → List (String × J) → Proc (Globals H J R) (Unit {0})
  say at message fields g =
      let (r, t) = log_info lib at.now at.span message fields g.telemetry in
      (r, record g { telemetry = t })

  -- From the end of the relay's thread on.
  unfoldable pub finish : OtelSdk H → Moment → Proc (Globals H J R) (Unit {0})
  finish sdk at = do modify (shutdown sdk lib); say at "inventory service stopped" []

  module _ {D G C P K : Type 0} (platform : Platform D G) (rd : RdKafkaClients C P K) where
    -- After setup and the first line.
    unfoldable pub construct : Config → Moment → Proc (Globals H J R) (Parts D G P K)
    construct cfg at = do
      database ← lift (platform.connect cfg.database_url)
      producer ← lift (make_producer rd cfg.kafka_brokers)
      let server : Option G = platform.build_and_start cfg.grpc_listen_addr
      say at "gRPC server listening" (listening lib cfg)
      consumer ← lift (make_consumer rd cfg.kafka_brokers cfg.consumer_group consumed_topics)
      pure (record {
        config = cfg;
        database = database;
        producer = producer;
        batch = batch_size cfg.relay_batch_size;
        server = server;
        consumer = consumer;
      })

    -- What throws here is not caught, and ends the process.
    unfoldable pub start_logs :
        OtelSdk H
        → (String → Option String)
        → Moment
        → Moment
        → Proc (Globals H J R) (Parts D G P K)
    start_logs sdk getenv first second =
        let cfg : Config = load getenv in
        do
          modify (setup sdk lib cfg.service_name cfg.otlp_endpoint)
          say first "inventory service starting" (hello lib cfg)
          construct cfg second

-- The JSON library throws `e` for the object of a line.
abbrev pub CannotWrite : {J : Type 0} → Json J → Error → Type 0
CannotWrite {J} lib e = (object : List (String × J)) × (lib.dump (lib.object object) ≡ throws e)

module _ {J D G C P K : Type 0} (lib : Json J) (platform : Platform D G) (rd : RdKafkaClients C P K)
    (getenv : String → Option String) where
  -- What main constructs without log lines, or the exception of a line.
  abbrev pub Same : Outcome (Parts D G P K) → Type 0
  Same r = ((e : Error) × CannotWrite lib e × (r ≡ throws e)) ⊎ (r ≡ start platform rd getenv)

module _ {H J R D G C P K : Type 0} (lib : Json J) (platform : Platform D G)
    (rd : RdKafkaClients C P K) (getenv : String → Option String) where
  construct-Same :
      (at : Moment) (g : Globals H J R)
      → Same lib platform rd getenv (construct lib platform rd (load getenv) at g).0
  unfolding construct start
  construct-Same at g =
      let cfg : Config = load getenv in
      elim (Outcome-cases (platform.connect cfg.database_url)) [
        | inl (e, x) ↦ inr (ground (arith, x))
        | inr (d, x) ↦ elim (Outcome-cases (make_producer rd cfg.kafka_brokers)) [
          | inl (e, y) ↦ inr (ground (arith, x, y))
          | inr (p, y) ↦
              elim (emit-cases lib at.now at.span "INFO" "gRPC server listening" (listening lib cfg)
                g.telemetry) [
                  | inl (e, object, z, w) ↦ inl (e, (object, z), ground (arith, x, y, w))
                  | inr (line, w) ↦
                      elim (Outcome-cases
                        (make_consumer rd cfg.kafka_brokers cfg.consumer_group consumed_topics)) [
                          | inl (e, z) ↦ inr (ground (arith, x, y, z, w))
                          | inr (k, z) ↦ inr (ground (arith, x, y, z, w))
                        ]
                ]
        ]
      ]

  -- With its log lines main constructs what it constructs without them, or throws what that throws; or it
  -- throws what the JSON library throws for the object of a line.
  pub start_logs-Same :
      (sdk : OtelSdk H) (first second : Moment) (g : Globals H J R)
      → Same lib platform rd getenv (start_logs lib platform rd sdk getenv first second g).0
  unfolding start_logs
  start_logs-Same sdk first second g =
      let cfg : Config = load getenv in
      let g' : Globals H J R = setup sdk lib cfg.service_name cfg.otlp_endpoint g in
      elim (emit-cases lib first.now first.span "INFO" "inventory service starting" (hello lib cfg)
        g'.telemetry) [
          | inl (e, object, z, w) ↦ inl (e, (object, z), ground (arith, w))
          | inr (line, w) ↦ subst (Same lib platform rd getenv) (ground (arith, w)) (
              construct-Same second (record g' {
                telemetry = record g'.telemetry { out = g'.telemetry.out ++ line ∷ [] };
              }))
        ]
