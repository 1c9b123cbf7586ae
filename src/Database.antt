-- ===== src/Database.antt =====
-- services/inventory/src/db.cpp: class Database, over the tables of
-- services/inventory/migrations/0001_init.up.sql. Each method is one transaction; the mutex makes
-- calls follow one another, so that a history is a sequence of calls.
pub mod Tables
pub mod Sql
pub mod OutboxSql
pub mod Markers
pub mod Conservation
pub mod Ledger
pub mod Validity
pub mod History
pub mod Retry
pub mod Shop
pub mod View
pub mod Refines
pub mod Orders
pub mod Leak
pub mod Sticks
pub mod Undo
pub mod Connection
pub mod ReserveSteps
pub mod ReleaseSteps
use choreography_saga_demo.Base.{
  ℕ, suc, String, Bool, true, false, ◌||◌, List, [], ◌∷◌, map, Option, none, some, arith, is_empty,
  if◌then◌else◌,
}
use choreography_saga_demo.Base.Int.{ℤ, ltb_ℤ}
use choreography_saga_demo.Base.Outcome.{
  Outcome, ok, throws, Proc, ◌>>=◌, ◌>>◌, pure, lift, gets, modify, branch, run_tx,
  int_out_of_range,
}
use choreography_saga_demo.Domain.{ReserveStatus, is_poison_sku}
use choreography_saga_demo.Outbox.{Record, Repo}
use choreography_saga_demo.Repository.{ReserveOutcome, ReleaseOutcome, EventBuilder, Repository}
use Tables.{Postgres, Reservation, OutboxRow, State}
use Sql.{
  mark_processed, cast_uuid, select_reserved_id, select_available, take_units, return_units,
  update_stock, insert_reservation, release_reservation,
}
use OutboxSql.{
  insert_outbox, select_pending, order_by_time, limit_rows, update_row, set_published,
  set_attempted, attempts_fit, count_rows,
}

abbrev pub consumer_reserve : String
consumer_reserve = "inventory-reserve"

abbrev pub failed_outcome : Bool → ReserveOutcome
failed_outcome duplicate = record {
  status = ReserveStatus.insufficient_stock;
  reservation_id = "";
  duplicate = duplicate;
}

abbrev pub reserved_outcome : Bool → String → ReserveOutcome
reserved_outcome duplicate id = record {
  status = ReserveStatus.reserved;
  reservation_id = id;
  duplicate = duplicate;
}

-- The branch of `reserve` for a key that was processed before.
reserve_duplicate : Postgres → String → Proc State ReserveOutcome
unfolding select_reserved_id
reserve_duplicate pg saga_id = do
  id ← select_reserved_id pg saga_id
  pure (if is_empty id then failed_outcome true else reserved_outcome true id)

reserve_units : Postgres → String → String → ℤ → Proc State ReserveOutcome
unfolding update_stock take_units insert_reservation
reserve_units pg saga_id sku quantity = do
  update_stock (take_units quantity) sku
  id ← insert_reservation pg saga_id sku quantity
  pure (reserved_outcome false id)

-- The decision of `reserve` for a new key.
decide : Postgres → String → String → ℤ → Proc State ReserveOutcome
unfolding select_available is_poison_sku reserve_units
decide pg saga_id sku quantity = do
  available ← select_available sku
  branch (is_poison_sku sku || ltb_ℤ available quantity) (pure (failed_outcome false))
      (reserve_units pg saga_id sku quantity)

-- The last steps of `reserve` and `release`: the event of the outcome is built and enqueued.
emit : {O : Type 0} → Postgres → EventBuilder O → O → Proc State O
unfolding insert_outbox
emit pg build_event outcome = do ob ← lift (build_event outcome); insert_outbox pg ob; pure outcome

reserve_new :
    Postgres → String → String → ℤ → EventBuilder ReserveOutcome → Proc State ReserveOutcome
unfolding decide emit
reserve_new pg saga_id sku quantity build_event = do
  outcome ← decide pg saga_id sku quantity
  emit pg build_event outcome

unfoldable pub reserve :
    Postgres
    → String
    → String
    → String
    → ℤ
    → EventBuilder ReserveOutcome
    → Proc State ReserveOutcome
unfolding mark_processed reserve_new reserve_duplicate
reserve pg saga_id idempotency_key sku quantity build_event = run_tx do
  fresh ← mark_processed idempotency_key consumer_reserve
  branch fresh (reserve_new pg saga_id sku quantity build_event) (reserve_duplicate pg saga_id)

-- The stock of a released reservation goes back, and the event is enqueued.
return_stock : Postgres → EventBuilder ReleaseOutcome → Reservation → Proc State ReleaseOutcome
unfolding update_stock return_units emit
return_stock pg build_event r = do
  update_stock (return_units r.quantity) r.sku
  emit pg build_event (record { released = true; duplicate = false })

release_new : Postgres → String → EventBuilder ReleaseOutcome → Proc State ReleaseOutcome
unfolding release_reservation return_stock
release_new pg saga_id build_event = do
  released ← release_reservation pg saga_id
  elim released [
    | some r ↦ return_stock pg build_event r
    | none ↦ pure (record { released = false; duplicate = false })
  ]

-- The second argument of the C++ method, `reservation_id`, is not used there.
unfoldable pub release :
    Postgres
    → String
    → String
    → String
    → String
    → EventBuilder ReleaseOutcome
    → Proc State ReleaseOutcome
unfolding mark_processed release_new
release pg saga_id reservation_id idempotency_key consumer build_event = run_tx do
  fresh ← mark_processed idempotency_key consumer
  branch fresh (release_new pg saga_id build_event)
      (pure (record { released = false; duplicate = true }))

-- The fields of a row that the SELECT names. `created_at` keeps its default, the epoch.
abbrev pub record_of : OutboxRow → Record
record_of r = record {
  id = r.id;
  topic = r.topic;
  aggregate_id = r.aggregate_id;
  payload = r.payload;
  traceparent = r.traceparent;
  created_at = 0;
}

unfoldable pub fetch_pending : (String → Bool) → ℤ → Proc State (List Record)
unfolding limit_rows
fetch_pending locked limit = run_tx do
  pending ← gets λ d. order_by_time (select_pending locked d.outbox)
  rows ← limit_rows limit pending
  pure (map record_of rows)

unfoldable pub mark_published : Postgres → String → Proc State (Unit {0})
unfolding cast_uuid
mark_published pg id = run_tx do
  row ← cast_uuid pg id
  modify λ d. record d { outbox = update_row row (set_published d.now) d.outbox }

unfoldable pub mark_failed : Postgres → String → Proc State (Unit {0})
unfolding cast_uuid
mark_failed pg id = run_tx do
  row ← cast_uuid pg id
  λ d. elim (attempts_fit row d.outbox) [
    | true ↦ (ok tt, record d { outbox = update_row row set_attempted d.outbox })
    | false ↦ (throws int_out_of_range, d)
  ]

unfoldable pub count_pending : Proc State ℕ
count_pending = run_tx (gets λ d. count_rows d.outbox)

-- What the application and the relay are given.
abbrev pub repository : Postgres → Repository State
repository pg = record { reserve = reserve pg; release = release pg }

abbrev pub outbox_repo : Postgres → (String → Bool) → Repo State
outbox_repo pg locked = record {
  fetch_pending = fetch_pending locked;
  mark_published = mark_published pg;
  mark_failed = mark_failed pg;
  count_pending = count_pending;
}
