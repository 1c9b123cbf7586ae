-- ===== src/Kafka/Delivery.antt =====
-- What librdkafka is relied on for by Producer::publish, and what the calls of publish come to.
use mathlib.Core.Path.{subst}
use Prim.Native.String.{◌++◌}
use choreography_saga_demo.Base.{
  ℕ, String, ◌≡◌, sym, ap, ◌∙◌, Option, none, some, arith, ltb, Option-cases, inl, inr, List,
  if◌then◌else◌,
}
use choreography_saga_demo.Base.Outcome.{Error, ok, throws, runtime_error}
use choreography_saga_demo.Outbox.{Message}
use choreography_saga_demo.Kafka.Producer.{RdKafka, headers_of, publish}

-- A message as it is handed to librdkafka.
pub record Wire : Type 0 where
  pub topic : String
  pub payload : String
  pub key : String
  pub headers : Option (List (String × String))

abbrev pub wire_of : Message → Wire
wire_of m = record {
  topic = m.topic;
  payload = m.payload;
  key = m.key;
  headers = headers_of m.traceparent;
}

-- The client has taken a message over, and it has been delivered to the broker. A message for which
-- produce answers with no error is taken over; both are for good; and when the queue is empty, every
-- message that was taken over has been delivered, which holds of a broker for which no delivery fails.
pub record RdKafkaLaws {K : Type 0} (rd : RdKafka K) (Taken Delivered : K → Wire → Type 0)
    : Type 0 where
  pub produce_takes :
      (topic payload key : String) (headers : Option (List (String × String))) (k : K)
      → (rd.produce topic payload key headers k).0 ≡ none
      → Taken
          (rd.produce topic payload key headers k).1
          (record { topic = topic; payload = payload; key = key; headers = headers })
  pub produce_keeps :
      (topic payload key : String) (headers : Option (List (String × String))) (k : K) (w : Wire)
      → Delivered k w
      → Delivered (rd.produce topic payload key headers k).1 w
  pub flush_takes : (n : ℕ) (k : K) (w : Wire) → Taken k w → Taken (rd.flush n k) w
  pub flush_keeps : (n : ℕ) (k : K) (w : Wire) → Delivered k w → Delivered (rd.flush n k) w
  pub empty_queue : (k : K) (w : Wire) → rd.outq_len k ≡ 0 → Taken k w → Delivered k w

module _ {K : Type 0} (rd : RdKafka K) (Taken Delivered : K → Wire → Type 0)
    (laws : RdKafkaLaws rd Taken Delivered) where
  abbrev produced : Message → K → Option String × K
  produced m k = rd.produce m.topic m.payload m.key (headers_of m.traceparent) k

  publish_refused :
      (m : Message) (k : K) (err : String)
      → (produced m k).0 ≡ some err
      → publish rd m k ≡ (throws (runtime_error ("kafka produce: " ++ err)), (produced m k).1)
  unfolding publish
  publish_refused m k err e = ground (arith, e)

  publish_taken :
      (m : Message) (k : K)
      → (produced m k).0 ≡ none
      → publish rd m k ≡ (
        if ltb 0 (rd.outq_len (rd.flush 5000 (produced m k).1))
            then throws (runtime_error "kafka publish not fully flushed")
            else ok tt,
        rd.flush 5000 (produced m k).1,
      )
  unfolding publish
  publish_taken m k e = ground (arith, e)

  flushed : (n : ℕ) (e : Error) → (if ltb 0 n then throws e else ok tt) ≡ ok tt → n ≡ 0
  flushed n e h = ground (arith, h)

  -- publish takes nothing back.
  pub publish-keeps :
      (m : Message) (k : K) (w : Wire) → Delivered k w → Delivered (publish rd m k).1 w
  publish-keeps m k w h =
      let kept : Delivered (produced m k).1 w =
        laws.produce_keeps m.topic m.payload m.key (headers_of m.traceparent) k w h in
      elim (Option-cases (produced m k).0) [
        | inl e ↦
            subst (λ r. Delivered r.1 w) (sym (publish_taken m k e))
              (laws.flush_keeps 5000 (produced m k).1 w kept)
        | inr (err, e) ↦ subst (λ r. Delivered r.1 w) (sym (publish_refused m k err e)) kept
      ]

  -- When publish returns, its message has been delivered.
  pub publish-delivers :
      (m : Message) (k : K) → (publish rd m k).0 ≡ ok tt → Delivered (publish rd m k).1 (wire_of m)
  publish-delivers m k h = elim (Option-cases (produced m k).0) [
    | inl e ↦
        let same = publish_taken m k e in
        let empty =
          flushed (rd.outq_len (rd.flush 5000 (produced m k).1))
            (runtime_error "kafka publish not fully flushed") (sym (ap (λ r. r.0) same) ∙ h) in
        subst (λ r. Delivered r.1 (wire_of m)) (sym same)
          (laws.empty_queue (rd.flush 5000 (produced m k).1) (wire_of m) empty (
            laws.flush_takes 5000 (produced m k).1 (wire_of m)
              (laws.produce_takes m.topic m.payload m.key (headers_of m.traceparent) k e)))
    | inr (err, e) ↦ absurd (ground (arith, publish_refused m k err e, h))
  ]
