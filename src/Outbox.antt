-- ===== src/Outbox.antt =====
-- services/inventory/include/inventory/outbox.hpp: the outbox records and the two interfaces of the
-- relay. Times are counted from the epoch of the system clock.
use choreography_saga_demo.Base.{ℕ, String, List}
use choreography_saga_demo.Base.Int.{ℤ}
use choreography_saga_demo.Base.Outcome.{Proc}

pub record Insert : Type 0 where
  pub aggregate_type : String
  pub aggregate_id : String
  pub event_type : String
  pub topic : String
  pub payload : String
  pub traceparent : String

pub record Record : Type 0 where
  pub id : String
  pub topic : String
  pub aggregate_id : String
  pub payload : String
  pub traceparent : String
  pub created_at : ℕ

-- What `publish` is handed.
pub record Message : Type 0 where
  pub topic : String
  pub key : String
  pub payload : String
  pub traceparent : String

-- class Repo, over the state `S` of its implementation.
pub record Repo (S : Type 0) : Type 0 where
  pub fetch_pending : ℤ → Proc S (List Record)
  pub mark_published : String → Proc S (Unit {0})
  pub mark_failed : String → Proc S (Unit {0})
  pub count_pending : Proc S ℕ

-- class Publisher.
pub record Publisher (P : Type 0) : Type 0 where
  pub publish : Message → Proc P (Unit {0})

abbrev pub message_of : Record → Message
message_of rec = record {
  topic = rec.topic;
  key = rec.aggregate_id;
  payload = rec.payload;
  traceparent = rec.traceparent;
}
