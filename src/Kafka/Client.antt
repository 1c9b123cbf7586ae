-- ===== src/Kafka/Client.antt =====
-- services/inventory/src/kafka_io.cpp: the constructors and destructors of Producer and Consumer, over
-- the calls of librdkafka that make and configure its clients.
use Prim.Native.String.{◌++◌}
use choreography_saga_demo.Base.{String, List, Option, none, some, ℕ}
use choreography_saga_demo.Base.Outcome.{Outcome, ok, throws, runtime_error}

-- `C` is a configuration. `conf_set` answers with the text of what it refuses, and the configuration
-- after the call; a client is created, or there is a text of why not.
pub data Created (A : Type 0) : Type 0 where
  created : A → Created A
  not_created : String → Created A

pub record RdKafkaClients (C P K : Type 0) : Type 0 where
  pub conf_create : C
  pub conf_set : String → String → C → Option String × C
  pub create_producer : C → Created P
  pub create_consumer : C → Created K
  pub subscribe : List String → K → Option String × K
  pub flush : ℕ → P → P
  pub close : K → K

module _ {C P K : Type 0} (rd : RdKafkaClients C P K) where
  unfoldable pub make_conf : String → Outcome C
  make_conf brokers =
      let (refused, conf) = rd.conf_set "bootstrap.servers" brokers rd.conf_create in
      elim refused [
        | some err ↦ throws (runtime_error ("kafka conf bootstrap.servers: " ++ err))
        | none ↦ ok conf
      ]

  -- A call of `conf->set` whose result is not looked at.
  abbrev set_unchecked : String → String → C → C
  set_unchecked key value conf = (rd.conf_set key value conf).1

  unfoldable pub make_producer : String → Outcome P
  unfolding make_conf
  make_producer brokers = elim (make_conf brokers) [
    | throws e ↦ throws e
    | ok conf ↦ elim (rd.create_producer (set_unchecked "enable.idempotence" "true" conf)) [
      | created p ↦ ok p
      | not_created err ↦ throws (runtime_error ("kafka producer create: " ++ err))
    ]
  ]

  abbrev pub consumer_conf : String → C → C
  consumer_conf group conf =
      set_unchecked "auto.offset.reset" "earliest"
        (set_unchecked "enable.auto.commit" "false" (set_unchecked "group.id" group conf))

  abbrev pub subscribed : Option String × K → Outcome K
  subscribed (none, k) = ok k
  subscribed (some err, k) = throws (runtime_error ("kafka subscribe: " ++ err))

  unfoldable pub make_consumer : String → String → List String → Outcome K
  unfolding make_conf
  make_consumer brokers group topics = elim (make_conf brokers) [
    | throws e ↦ throws e
    | ok conf ↦ elim (rd.create_consumer (consumer_conf group conf)) [
      | created k ↦ subscribed (rd.subscribe topics k)
      | not_created err ↦ throws (runtime_error ("kafka consumer create: " ++ err))
    ]
  ]

  -- ~Producer and ~Consumer; a constructed object has its client.
  abbrev pub destroy_producer : P → P
  destroy_producer p = rd.flush 5000 p

  abbrev pub destroy_consumer : K → K
  destroy_consumer k = rd.close k
