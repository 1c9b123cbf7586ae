-- ===== src/App/Events.antt =====
-- Which event a call of the application enqueues, over Database.
use choreography_saga_demo.Base.{
  String, ◌≡◌, refl, ◌⊎◌, inl, inr, true, false, List, [], ◌∷◌, ◌++◌, arith,
}
use choreography_saga_demo.Base.Int.{ℤ}
use choreography_saga_demo.Base.Outcome.{ok, Outcome-cases}
use choreography_saga_demo.Domain.{ReserveStatus}
use choreography_saga_demo.Outbox.{Insert}
use choreography_saga_demo.Repository.{ReserveOutcome}
use choreography_saga_demo.Json.{Json}
use choreography_saga_demo.Envelope.{Entropy}
use choreography_saga_demo.Database.Tables.{Postgres, OutboxStatus, OutboxRow, State}
use choreography_saga_demo.Database.Sql.{is_processed}
use choreography_saga_demo.Database.OutboxSql.{new_row}
use choreography_saga_demo.Database.ReserveSteps
use choreography_saga_demo.Database.ReserveSteps.{ReserveStep}
use choreography_saga_demo.Database.{reserve, repository, consumer_reserve, failed_outcome}
use choreography_saga_demo.App.{
  ReserveResult, topic_reserved, topic_reservation_failed, result_of, build_reserve_event,
  reserve_stock, reserved_event, failed_event,
}

abbrev pub topic_for : ReserveStatus → String
topic_for ReserveStatus.reserved = topic_reserved
topic_for _ = topic_reservation_failed

abbrev pub event_type_for : ReserveStatus → String
event_type_for ReserveStatus.reserved = "InventoryReserved"
event_type_for _ = "InventoryReservationFailed"

-- The outbox has one row more, a pending one, that announces the status to the topic for it, under
-- the saga's id and trace.
abbrev pub Announces : String → String → ReserveStatus → List OutboxRow → List OutboxRow → Type 0
Announces saga_id traceparent status rows rows' =
    (row : OutboxRow) × (rows' ≡ rows ++ row ∷ [])
    × (row.status ≡ OutboxStatus.pending)
    × (row.topic ≡ topic_for status)
    × (row.event_type ≡ event_type_for status)
    × (row.aggregate_id ≡ saga_id)
    × (row.traceparent ≡ traceparent)

module _ {J : Type 0} (lib : Json J) (entropy : Entropy) (saga_id sku : String) (q : ℤ)
    (traceparent : String) where
  built_event :
      (outcome : ReserveOutcome) (ob : Insert)
      → build_reserve_event lib entropy saga_id sku q traceparent outcome ≡ ok ob
      → (ob.topic ≡ topic_for outcome.status)
        × (ob.event_type ≡ event_type_for outcome.status)
        × (ob.aggregate_id ≡ saga_id)
        × (ob.traceparent ≡ traceparent)
  unfolding build_reserve_event reserved_event failed_event
  built_event outcome ob h = ground arith

  module _ (pg : Postgres) (key : String) (d : State) where
    -- A call that returns is a call of the repository that returns.
    pub reserve_stock-returns :
        (res : ReserveResult) (d' : State)
        → reserve_stock lib entropy (repository pg) saga_id key sku q traceparent d ≡ (ok res, d')
        → (o : ReserveOutcome) × (reserve pg saga_id key sku q
              (build_reserve_event lib entropy saga_id sku q traceparent)
              d
            ≡ (ok o, d'))
          × (res ≡ result_of sku o)
    unfolding reserve_stock
    reserve_stock-returns res d' h =
        elim (Outcome-cases
          (reserve pg saga_id key sku q (build_reserve_event lib entropy saga_id sku q traceparent)
            d).0) [
              | inl (e, x) ↦ absurd (ground arith)
              | inr (o, x) ↦ (o, ground arith, ground arith)
            ]

    announces :
        (o outcome : ReserveOutcome) (ob : Insert) (payload id : String) (rows : List OutboxRow)
        → ok o ≡ ok outcome
        → build_reserve_event lib entropy saga_id sku q traceparent outcome ≡ ok ob
        → Announces saga_id traceparent o.status rows (rows ++ new_row ob payload d.now id ∷ [])
    announces o outcome ob payload id rows same built =
        let (topic, event_type, aggregate_id, trace) = built_event outcome ob built in
        (
          new_row ob payload d.now id,
          refl,
          refl,
          ground (arith, topic),
          ground (arith, event_type),
          aggregate_id,
          trace,
        )

    -- What a call that returns `o` did to the markers and the outbox.
    abbrev pub Recorded : ReserveOutcome → State → Type 0
    Recorded o d' =
        ((is_processed key consumer_reserve d.processed_messages ≡ true) × (d' ≡ d))
        ⊎ ((is_processed key consumer_reserve d.processed_messages ≡ false)
            × (is_processed key consumer_reserve d'.processed_messages ≡ true)
            × Announces saga_id traceparent o.status d.outbox d'.outbox)

    ReserveStep-Recorded :
        {r : _} {d' : State}
        → ReserveStep pg saga_id key sku q
            (build_reserve_event lib entropy saga_id sku q traceparent)
            d
            r
            d'
        → (o : ReserveOutcome) → r ≡ ok o
        → Recorded o d'
    ReserveStep-Recorded (ReserveStep.failed e x y) o h = cc
    ReserveStep-Recorded (ReserveStep.repeated u a c x y) o h = inl (a, y)
    ReserveStep-Recorded (ReserveStep.refused ob p a b e i x y) o h =
        rw y (inr (a, ground arith, announces o (failed_outcome false) ob p _ d.outbox (cc) e))
    ReserveStep-Recorded (ReserveStep.accepted u ob p a b c f e i x y) o h =
        rw y (inr (a, ground arith, announces o _ ob p _ d.outbox (cc) e))
    ReserveStep-Recorded (ReserveStep.accepted_again u old ob p a b c f e i x y) o h =
        rw y (inr (a, ground arith, announces o _ ob p _ d.outbox (cc) e))

    -- A reserve_stock call over Database that returns has either been made before under its key, and
    -- changes nothing; or it leaves the key processed and the outbox with exactly one row more, a
    -- pending event for the saga under the given trace, whose topic and type tell the status returned.
    pub reserve_stock-Announces :
        (res : ReserveResult) (d' : State)
        → reserve_stock lib entropy (repository pg) saga_id key sku q traceparent d ≡ (ok res, d')
        → ((is_processed key consumer_reserve d.processed_messages ≡ true) × (d' ≡ d))
          ⊎ ((is_processed key consumer_reserve d.processed_messages ≡ false)
              × (is_processed key consumer_reserve d'.processed_messages ≡ true)
              × Announces saga_id traceparent res.status d.outbox d'.outbox)
    unfolding result_of
    reserve_stock-Announces res d' h =
        let (o, call, told) = reserve_stock-returns res d' h in
        rw told (
          ReserveStep-Recorded
            (ReserveSteps.step_of pg saga_id key sku q
              (build_reserve_event lib entropy saga_id sku q traceparent) d call)
            o refl)
