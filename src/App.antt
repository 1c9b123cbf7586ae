-- ===== src/App.antt =====
-- services/inventory/include/inventory/service.hpp and src/service.cpp: class InventoryApp over a
-- repository. Its log lines are in App/Logs.
pub mod Events
pub mod Service
pub mod Releases
pub mod Logs
use choreography_saga_demo.Base.{String, Bool, true, false, List, [], ◌∷◌, if◌then◌else◌, is_empty}
use choreography_saga_demo.Base.Int.{ℤ}
use choreography_saga_demo.Base.Outcome.{Outcome, ok, throws, Proc, ◌>>=◌, pure, lift}
use choreography_saga_demo.Domain.{ReserveStatus, is_poison_sku}
use choreography_saga_demo.Outbox.{Insert}
use choreography_saga_demo.Repository.{ReserveOutcome, ReleaseOutcome, EventBuilder, Repository}
use choreography_saga_demo.Json.{Json}
use choreography_saga_demo.Envelope.{Envelope, Entropy, to_json, make_envelope}

abbrev pub topic_reserved : String
topic_reserved = "inventory.reserved"

abbrev pub topic_reservation_failed : String
topic_reservation_failed = "inventory.reservation_failed"

abbrev pub topic_released : String
topic_released = "inventory.released"

abbrev pub topic_order_cancelled : String
topic_order_cancelled = "order.cancelled"

abbrev pub consumer_release : String
consumer_release = "inventory-release"

abbrev pub consumer_order_cancelled : String
consumer_order_cancelled = "inventory-order-cancelled"

unfoldable pub consumed_topics : List String
consumed_topics = topic_order_cancelled ∷ []

pub record ReserveResult : Type 0 where
  pub status : ReserveStatus
  pub reservation_id : String
  pub message : String

-- The Insert of an event whose envelope could be written.
abbrev pub insert_of : Outcome String → (String → Insert) → Outcome Insert
insert_of (ok payload) f = ok (f payload)
insert_of (throws e) f = throws e

abbrev pub inventory_insert : String → String → String → String → String → Insert
inventory_insert saga_id event_type topic traceparent payload = record {
  aggregate_type = "inventory";
  aggregate_id = saga_id;
  event_type = event_type;
  topic = topic;
  payload = payload;
  traceparent = traceparent;
}

abbrev pub failure_reason : String → String
failure_reason sku = if is_poison_sku sku then "poison SKU forced failure" else "insufficient stock"

module _ {J : Type 0} (lib : Json J) (entropy : Entropy) where
  unfoldable pub reserved_event : String → String → ℤ → ReserveOutcome → String → Outcome Insert
  reserved_event saga_id sku quantity outcome traceparent =
      insert_of
        (to_json lib (
          make_envelope lib entropy "InventoryReserved" saga_id
            (lib.object (
              ("orderId", lib.text saga_id)
              ∷ ("sagaId", lib.text saga_id)
              ∷ ("sku", lib.text sku)
              ∷ ("quantity", lib.number quantity)
              ∷ ("reservationId", lib.text outcome.reservation_id)
              ∷ ("status", lib.text "RESERVED")
              ∷ []))
            traceparent))
        (inventory_insert saga_id "InventoryReserved" topic_reserved traceparent)

  unfoldable pub failed_event : String → String → ℤ → String → String → Outcome Insert
  failed_event saga_id sku quantity reason traceparent =
      insert_of
        (to_json lib (
          make_envelope lib entropy "InventoryReservationFailed" saga_id
            (lib.object (
              ("orderId", lib.text saga_id)
              ∷ ("sagaId", lib.text saga_id)
              ∷ ("sku", lib.text sku)
              ∷ ("quantity", lib.number quantity)
              ∷ ("reason", lib.text reason)
              ∷ ("status", lib.text "INSUFFICIENT_STOCK")
              ∷ []))
            traceparent))
        (inventory_insert saga_id "InventoryReservationFailed" topic_reservation_failed traceparent)

  unfoldable pub released_event : String → String → String → Outcome Insert
  released_event saga_id reservation_id traceparent =
      insert_of
        (to_json lib (
          make_envelope lib entropy "InventoryReleased" saga_id
            (lib.object (
              ("orderId", lib.text saga_id)
              ∷ ("sagaId", lib.text saga_id)
              ∷ ("reservationId", lib.text reservation_id)
              ∷ ("status", lib.text "RELEASED")
              ∷ []))
            traceparent))
        (inventory_insert saga_id "InventoryReleased" topic_released traceparent)

  -- The callbacks `build_event`.
  unfoldable pub build_reserve_event : String → String → ℤ → String → EventBuilder ReserveOutcome
  build_reserve_event saga_id sku quantity traceparent outcome = elim outcome.status [
    | ReserveStatus.reserved ↦ reserved_event saga_id sku quantity outcome traceparent
    | _ ↦ failed_event saga_id sku quantity (failure_reason sku) traceparent
  ]

  unfoldable pub build_release_event : String → String → String → EventBuilder ReleaseOutcome
  build_release_event saga_id reservation_id traceparent outcome =
      released_event saga_id reservation_id traceparent

-- What the caller of reserve_stock is told.
unfoldable pub result_of : String → ReserveOutcome → ReserveResult
result_of sku outcome = record {
  status = outcome.status;
  reservation_id = outcome.reservation_id;
  message = elim outcome.status [
    | ReserveStatus.reserved ↦ if outcome.duplicate then "already reserved" else "reserved"
    | _ ↦ failure_reason sku
  ];
}

module _ {J S : Type 0} (lib : Json J) (entropy : Entropy) (repo : Repository S) where
  unfoldable pub reserve_stock : String → String → String → ℤ → String → Proc S ReserveResult
  unfolding result_of
  reserve_stock saga_id idempotency_key sku quantity traceparent = do
    outcome ←
        repo.reserve saga_id idempotency_key sku quantity
          (build_reserve_event lib entropy saga_id sku quantity traceparent)
    pure (result_of sku outcome)

  unfoldable pub release_stock : String → String → String → String → Proc S Bool
  release_stock saga_id reservation_id idempotency_key traceparent = do
    outcome ←
        repo.release saga_id reservation_id idempotency_key consumer_release
          (build_release_event lib entropy saga_id reservation_id traceparent)
    pure outcome.released

  -- The trace of the event, or else the one of the message that carried it.
  abbrev pub event_traceparent : Envelope J → String → String
  event_traceparent env in_traceparent =
      if is_empty env.traceparent then in_traceparent else env.traceparent

  -- The reservation id is read first, and reading it throws where `data` is no object.
  unfoldable pub handle_order_cancelled : Envelope J → String → Proc S (Unit {0})
  handle_order_cancelled env in_traceparent = do
    reservation_id ← lift (lib.value_text env.payload "reservationId" "")
    outcome ← repo.release env.saga_id reservation_id env.idempotency_key consumer_order_cancelled (
        build_release_event lib entropy env.saga_id reservation_id
          (event_traceparent env in_traceparent))
    pure tt
