-- ===== src/App/Logs.antt =====
-- services/inventory/src/service.cpp: the methods of InventoryApp with their log lines.
use choreography_saga_demo.Base.{String, Bool, List, [], ◌∷◌, if◌then◌else◌}
use choreography_saga_demo.Base.Int.{ℤ}
use choreography_saga_demo.Base.Outcome.{Proc, ◌>>=◌, ◌>>◌, pure, lift}
use choreography_saga_demo.Domain.{ReserveStatus}
use choreography_saga_demo.Repository.{ReserveOutcome, ReleaseOutcome, Repository}
use choreography_saga_demo.Json.{Json}
use choreography_saga_demo.Envelope.{Envelope, Entropy}
use choreography_saga_demo.Obs.Host.{Host, Moment, on_repo, log}
use choreography_saga_demo.App.{
  ReserveResult, result_of, build_reserve_event, build_release_event, failure_reason,
  event_traceparent, consumer_release, consumer_order_cancelled,
}

-- A message and its fields.
module _ {J : Type 0} (lib : Json J) where
  unfoldable pub reserve_line : String → String → ReserveOutcome → String × List (String × J)
  reserve_line saga_id sku outcome = elim outcome.status [
    | ReserveStatus.reserved ↦ (
      "reserve_stock reserved",
      ("saga_id", lib.text saga_id)
          ∷ ("sku", lib.text sku)
          ∷ ("duplicate", lib.boolean outcome.duplicate)
          ∷ [],
    )
    | _ ↦ (
      "reserve_stock failed",
      ("saga_id", lib.text saga_id)
          ∷ ("sku", lib.text sku)
          ∷ ("reason", lib.text (failure_reason sku))
          ∷ [],
    )
  ]

  unfoldable pub release_line : String → ReleaseOutcome → String × List (String × J)
  release_line saga_id outcome = (
    "release_stock",
    ("saga_id", lib.text saga_id)
        ∷ ("released", lib.boolean outcome.released)
        ∷ ("duplicate", lib.boolean outcome.duplicate)
        ∷ [],
  )

  unfoldable pub cancelled_line : String → ReleaseOutcome → String × List (String × J)
  cancelled_line saga_id outcome =
      if outcome.duplicate
      then ("order.cancelled duplicate ignored", ("saga_id", lib.text saga_id) ∷ [])
      else (
        "order.cancelled handled",
        ("saga_id", lib.text saga_id) ∷ ("released", lib.boolean outcome.released) ∷ [],
      )

module _ {J S R : Type 0} (lib : Json J) (entropy : Entropy) (repo : Repository S)
    (at : Moment) where
  abbrev log_line : String × List (String × J) → Proc (Host S J R) (Unit {0})
  log_line (message, fields) = log lib at message fields

  unfoldable pub reserve_stock_logs :
      String → String → String → ℤ → String → Proc (Host S J R) ReserveResult
  unfolding result_of
  reserve_stock_logs saga_id idempotency_key sku quantity traceparent = do
    outcome ← on_repo (
        repo.reserve saga_id idempotency_key sku quantity
          (build_reserve_event lib entropy saga_id sku quantity traceparent))
    log_line (reserve_line lib saga_id sku outcome)
    pure (result_of sku outcome)

  unfoldable pub release_stock_logs : String → String → String → String → Proc (Host S J R) Bool
  release_stock_logs saga_id reservation_id idempotency_key traceparent = do
    outcome ← on_repo (
        repo.release saga_id reservation_id idempotency_key consumer_release
          (build_release_event lib entropy saga_id reservation_id traceparent))
    log_line (release_line lib saga_id outcome)
    pure outcome.released

  unfoldable pub order_cancelled_logs : Envelope J → String → Proc (Host S J R) (Unit {0})
  order_cancelled_logs env in_traceparent = do
    reservation_id ← lift (lib.value_text env.payload "reservationId" "")
    outcome ← on_repo (
        repo.release env.saga_id reservation_id env.idempotency_key consumer_order_cancelled (
          build_release_event lib entropy env.saga_id reservation_id
            (event_traceparent lib entropy repo env in_traceparent)))
    log_line (cancelled_line lib env.saga_id outcome)

-- The methods of an InventoryApp. A call draws random words, and logs one line at some moment.
pub record InventoryApp (S J R : Type 0) : Type 0 where
  pub reserve_stock :
      Entropy → Moment → String → String → String → ℤ → String → Proc (Host S J R) ReserveResult
  pub release_stock : Entropy → Moment → String → String → String → String → Proc (Host S J R) Bool
  pub handle_order_cancelled : Entropy → Moment → Envelope J → String → Proc (Host S J R) (Unit {0})

-- InventoryApp::InventoryApp.
abbrev pub inventory_app : {J S R : Type 0} → Json J → Repository S → InventoryApp S J R
inventory_app lib repo = record {
  reserve_stock = λ entropy at. reserve_stock_logs lib entropy repo at;
  release_stock = λ entropy at. release_stock_logs lib entropy repo at;
  handle_order_cancelled = λ entropy at. order_cancelled_logs lib entropy repo at;
}
