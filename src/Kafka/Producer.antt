-- ===== src/Kafka/Producer.antt =====
-- services/inventory/src/kafka_io.cpp: Producer::publish, over the calls of librdkafka's producer.
use Prim.Native.String.{◌++◌}
use choreography_saga_demo.Base.{
  ℕ, String, List, [], ◌∷◌, Option, none, some, if◌then◌else◌, is_empty, ltb,
}
use choreography_saga_demo.Base.Outcome.{Outcome, ok, throws, runtime_error}
use choreography_saga_demo.Outbox.{Message, Publisher}

-- `produce` takes topic, payload, key and headers (`none`: a null pointer) and answers with the text of
-- its error code (`none`: ERR_NO_ERROR); `flush` waits at most so many milliseconds.
pub record RdKafka (K : Type 0) : Type 0 where
  pub produce : String → String → String → Option (List (String × String)) → K → Option String × K
  pub flush : ℕ → K → K
  pub outq_len : K → ℕ

abbrev pub traceparent_header : String
traceparent_header = "traceparent"

abbrev pub headers_of : String → Option (List (String × String))
headers_of traceparent =
    if is_empty traceparent then none else some ((traceparent_header, traceparent) ∷ [])

-- Producer::publish.
unfoldable pub publish : {K : Type 0} → RdKafka K → Message → K → Outcome (Unit {0}) × K
publish rd m k =
    let (ec, k') = rd.produce m.topic m.payload m.key (headers_of m.traceparent) k in
    elim ec [
      | some err ↦ (throws (runtime_error ("kafka produce: " ++ err)), k')
      | none ↦
          let flushed = rd.flush 5000 k' in
          (
            if ltb 0 (rd.outq_len flushed)
                then throws (runtime_error "kafka publish not fully flushed")
                else ok tt,
            flushed,
          )
    ]

abbrev pub producer : {K : Type 0} → RdKafka K → Publisher K
producer rd = record { publish = publish rd }
