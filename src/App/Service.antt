-- ===== src/App/Service.antt =====
-- The application over Database: repeated calls, the poison SKU, and compensation.
use choreography_saga_demo.Base.{String, text_dec, ◌≡◌, refl, inl, inr, false, some, arith}
use choreography_saga_demo.Base.Int.{ℤ}
use choreography_saga_demo.Base.Outcome.{ok, Outcome-cases}
use choreography_saga_demo.Domain.{ReserveStatus, poison_sku, is_poison_sku}
use choreography_saga_demo.Repository.{ReserveOutcome, ReleaseOutcome, EventBuilder}
use choreography_saga_demo.Json.{Json}
use choreography_saga_demo.Envelope.{Envelope, Entropy}
use choreography_saga_demo.Database.Tables.{Postgres, PostgresLaws, State}
use choreography_saga_demo.Database.Sql.{is_processed}
use choreography_saga_demo.Database.Validity.{RepeatsOrNew}
use choreography_saga_demo.Database.ReserveSteps
use choreography_saga_demo.Database.ReserveSteps.{ReserveStep, reserve_steps}
use choreography_saga_demo.Database.Retry.{reserve_retry, release_retry}
use choreography_saga_demo.Database.{release, repository, consumer_reserve}
use choreography_saga_demo.App.{
  ReserveResult, result_of, build_reserve_event, build_release_event, reserve_stock,
  handle_order_cancelled, consumer_order_cancelled, event_traceparent,
}
use choreography_saga_demo.App.Events.{reserve_stock-returns}

-- What a repeated call is told.
abbrev pub repeated : ReserveResult → ReserveResult
repeated res = record res {
  message = elim res.status [ ReserveStatus.reserved ↦ "already reserved" | _ ↦ res.message ];
}

module _ {J : Type 0} (lib : Json J) (entropy : Entropy) (pg : Postgres) where
  -- Once reserve_stock has returned for a valid saga id, the first time for the saga or as a
  -- repetition, the same call returns the same status and reservation id, changes nothing, and says
  -- "already reserved" where the reservation stands.
  pub reserve_stock-retry :
      (laws : PostgresLaws pg) (entropy' : Entropy) (saga_id key sku u : String) (q : ℤ)
      (traceparent traceparent' : String) (d : State) (res : ReserveResult) (d' : State)
      → pg.uuid_cast saga_id ≡ some u
      → RepeatsOrNew pg saga_id key d
      → reserve_stock lib entropy (repository pg) saga_id key sku q traceparent d ≡ (ok res, d')
      → reserve_stock lib entropy' (repository pg) saga_id key sku q traceparent' d'
        ≡ (ok (repeated res), d')
  unfolding reserve_stock result_of
  reserve_stock-retry laws entropy' saga_id key sku u q traceparent traceparent' d res d' cast new
        h =
      let (o, call, told) =
        reserve_stock-returns lib entropy saga_id sku q traceparent pg key d res d' h in
      ground (
        arith,
        told,
        reserve_retry pg laws saga_id key sku u q
            (build_reserve_event lib entropy saga_id sku q traceparent) d cast new sku q
            (build_reserve_event lib entropy' saga_id sku q traceparent') o d' call,
      )

  ReserveStep-poison :
      (saga key : String) (q : ℤ) (build : EventBuilder ReserveOutcome) (d : State) {r : _}
      {d' : State}
      → ReserveStep pg saga key poison_sku q build d r d'
      → is_processed key consumer_reserve d.processed_messages ≡ false
      → (d'.stock ≡ d.stock)
        × (d'.reservations ≡ d.reservations)
        × ((o : ReserveOutcome) → r ≡ ok o → o.status ≡ ReserveStatus.insufficient_stock)
  unfolding is_poison_sku text_dec
  ReserveStep-poison saga key q build d (ReserveStep.failed e x y) n = rw y (refl, refl, λ o h. cc)
  ReserveStep-poison saga key q build d (ReserveStep.repeated u a c x y) n = absurd (ground arith)
  ReserveStep-poison saga key q build d (ReserveStep.refused ob p a b e i x y) n =
      rw y (refl, refl, λ o h. ground arith)
  ReserveStep-poison saga key q build d (ReserveStep.accepted u ob p a b c f e i x y) n =
      absurd (cc)
  ReserveStep-poison saga key q build d (ReserveStep.accepted_again u old ob p a b c f e i x y) n =
      absurd (cc)

  -- A call of reserve_stock for the poison SKU, under a key that is not processed yet, that returns
  -- without an exception leaves the stock and the reservations as they are and says
  -- INSUFFICIENT_STOCK, whatever the stock of that SKU and whatever quantity is asked for.
  pub reserve_stock-poison :
      (saga_id key : String) (q : ℤ) (traceparent : String) (d : State) (res : ReserveResult)
      (d' : State)
      → is_processed key consumer_reserve d.processed_messages ≡ false
      → reserve_stock lib entropy (repository pg) saga_id key poison_sku q traceparent d
        ≡ (ok res, d')
      → (d'.stock ≡ d.stock)
        × (d'.reservations ≡ d.reservations)
        × (res.status ≡ ReserveStatus.insufficient_stock)
  unfolding result_of
  reserve_stock-poison saga_id key q traceparent d res d' new h =
      let (o, call, told) =
        reserve_stock-returns lib entropy saga_id poison_sku q traceparent pg key d res d' h in
      let build : EventBuilder ReserveOutcome =
        build_reserve_event lib entropy saga_id poison_sku q traceparent in
      let (stock, reservations, status) =
        ReserveStep-poison saga_id key q build d
          (ReserveSteps.step_of pg saga_id key poison_sku q build d call) new in
      (stock, reservations, ground (arith, told, status o refl))

  -- An order.cancelled event that is delivered again after its handler has returned is handled again
  -- without an error, and changes nothing.
  pub handle_order_cancelled-redelivered :
      (entropy' : Entropy) (env : Envelope J) (traceparent traceparent' : String) (d d' : State)
      → handle_order_cancelled lib entropy (repository pg) env traceparent d ≡ (ok tt, d')
      → handle_order_cancelled lib entropy' (repository pg) env traceparent' d' ≡ (ok tt, d')
  unfolding handle_order_cancelled
  handle_order_cancelled-redelivered entropy' env traceparent traceparent' d d' h =
      elim (Outcome-cases (lib.value_text env.payload "reservationId" "")) [
        | inl (e, x) ↦ absurd (ground arith)
        | inr (id, x) ↦
            let build : EventBuilder ReleaseOutcome =
              build_release_event lib entropy env.saga_id id
                (event_traceparent lib entropy (repository pg) env traceparent) in
            let build' : EventBuilder ReleaseOutcome =
              build_release_event lib entropy' env.saga_id id
                (event_traceparent lib entropy' (repository pg) env traceparent') in
            elim (Outcome-cases
              (release pg env.saga_id id env.idempotency_key consumer_order_cancelled build d).0) [
                | inl (e, y) ↦ absurd (ground arith)
                | inr (o, y) ↦ ground (
                  arith,
                  release_retry pg env.saga_id id env.idempotency_key consumer_order_cancelled build
                      d env.saga_id id build' o d',
                )
              ]
      ]
