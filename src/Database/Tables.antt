-- ===== src/Database/Tables.antt =====
-- The tables of services/inventory/migrations/0001_init.up.sql that db.cpp reads and writes, and
-- what db.cpp takes from PostgreSQL itself.
use choreography_saga_demo.Base.{ℕ, String, ◌≡◌, ◌≢◌, List, Option, some}
use choreography_saga_demo.Base.Int.{ℤ}
use choreography_saga_demo.Domain.{ReservationState}

-- The PostgreSQL functions that the statements call: the casts of a text to UUID and to JSONB,
-- with the text of the value (`none`: the cast is refused), and gen_random_uuid(), by the number
-- of its call.
pub record Postgres : Type 0 where
  pub uuid_cast : String → Option String
  pub jsonb_cast : String → Option String
  pub random_uuid : ℕ → String

-- What is documented of them: the text of a UUID is not empty and reads back as the same UUID,
-- and random UUIDs are valid and distinct.
pub record PostgresLaws (pg : Postgres) : Type 0 where
  pub uuid_text : (s u : String) → pg.uuid_cast s ≡ some u → pg.uuid_cast u ≡ some u
  pub uuid_not_empty : (s u : String) → pg.uuid_cast s ≡ some u → u ≢ ""
  pub random_valid : (n : ℕ) → pg.uuid_cast (pg.random_uuid n) ≡ some (pg.random_uuid n)
  pub random_distinct : (m n : ℕ) → pg.random_uuid m ≡ pg.random_uuid n → m ≡ n

pub record Stock : Type 0 where
  pub sku : String
  pub available : ℤ
  pub reserved : ℤ

-- Without created_at, which nothing reads.
pub record Reservation : Type 0 where
  pub id : String
  pub saga_id : String
  pub sku : String
  pub quantity : ℤ
  pub status : ReservationState

pub data OutboxStatus : Type 0 where
  pending published : OutboxStatus

-- `traceparent` is the one key of the column `headers`.
pub record OutboxRow : Type 0 where
  pub id : String
  pub aggregate_type : String
  pub aggregate_id : String
  pub event_type : String
  pub topic : String
  pub payload : String
  pub traceparent : String
  pub status : OutboxStatus
  pub attempts : ℤ
  pub created_at : ℕ
  pub published_at : Option ℕ

pub record ProcessedMessage : Type 0 where
  pub idempotency_key : String
  pub consumer : String

-- The database as one transaction sees it: the four tables, how many random UUIDs have been drawn,
-- and now(). Rows of the outbox stand in the order of their insertion.
pub record State : Type 0 where
  pub stock : List Stock
  pub reservations : List Reservation
  pub outbox : List OutboxRow
  pub processed_messages : List ProcessedMessage
  pub drawn : ℕ
  pub now : ℕ
