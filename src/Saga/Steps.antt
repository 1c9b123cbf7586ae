-- ===== src/Saga/Steps.antt =====
-- A first reservation that succeeds, and a cancellation that finds it, as steps of the database.
use choreography_saga_demo.Base.{
  ℕ, suc, String, text_dec, ◌≡◌, refl, sym, ap, ◌∙◌, inl, inr, false, List, [], ◌∷◌, ◌++◌, none,
  some, arith,
}
use choreography_saga_demo.Base.Int.{ℤ}
use choreography_saga_demo.Base.Outcome.{ok, Outcome-cases}
use choreography_saga_demo.Domain.{ReserveStatus}
use choreography_saga_demo.Outbox.{Insert}
use choreography_saga_demo.Repository.{ReserveOutcome, ReleaseOutcome, EventBuilder}
use choreography_saga_demo.Json.{Json}
use choreography_saga_demo.Envelope.{Envelope, Entropy}
use choreography_saga_demo.Database.Tables.{Postgres, Reservation, State}
use choreography_saga_demo.Database.Sql.{
  is_processed, find_saga, find_reserved, return_units, set_stock, set_released, marker,
}
use choreography_saga_demo.Database.OutboxSql.{new_row}
use choreography_saga_demo.Database.ReserveSteps
use choreography_saga_demo.Database.ReserveSteps.{ReserveStep, after_accepted, new_reservation}
use choreography_saga_demo.Database.ReleaseSteps.{ReleaseStep}
use choreography_saga_demo.Database.{repository}
use choreography_saga_demo.App.{
  topic_reserved, topic_released, consumer_order_cancelled, event_traceparent, build_reserve_event,
  build_release_event, reserved_event, released_event, reserve_stock, ReserveResult, result_of,
  topic_order_cancelled,
}
use choreography_saga_demo.App.Events.{reserve_stock-returns}
use choreography_saga_demo.Grpc.{
  Tracing, ProtoStatus, ReserveStockRequest, ReserveStockResponse, incoming_traceparent,
  reserve_stock_rpc, to_proto,
}
use choreography_saga_demo.Process.{on_message}
use choreography_saga_demo.Process.Cancel.{
  Carries, cancel_release, cancel_order-release, cancel_step,
}

find_reserved-missing :
    (u : String) (rs : List Reservation) → find_saga u rs ≡ none → find_reserved u rs ≡ none
find_reserved-missing u [] h = refl
find_reserved-missing u (r ∷ rs) h = ground (arith, find_reserved-missing u rs)

to_proto-reserved :
    (st : ReserveStatus) → to_proto st ≡ ProtoStatus.reserved → st ≡ ReserveStatus.reserved
unfolding to_proto
to_proto-reserved ReserveStatus.reserved h = refl
to_proto-reserved ReserveStatus.insufficient_stock h = absurd (ground arith)
to_proto-reserved ReserveStatus.unspecified h = absurd (ground arith)

module _ {J : Type 0} (lib : Json J) (pg : Postgres) where
  module _ (entropy : Entropy) (saga key sku u traceparent : String) (q : ℤ) (d : State) where
    abbrev pub build : EventBuilder ReserveOutcome
    build = build_reserve_event lib entropy saga sku q traceparent

    -- The reservation was accepted, with an event to inventory.reserved.
    abbrev pub Reserved : State → Type 0
    Reserved d' =
        (ob : Insert) × (payload : String) × (d'
          ≡ after_accepted pg saga key sku q build d u ob payload)
        × (ob.topic ≡ topic_reserved)
        × (ob.aggregate_id ≡ saga)

    reserved_built :
        (id : String) (ob : Insert)
        → build (record { status = ReserveStatus.reserved; reservation_id = id; duplicate = false })
          ≡ ok ob
        → (ob.topic ≡ topic_reserved) × (ob.aggregate_id ≡ saga)
    unfolding build_reserve_event reserved_event
    reserved_built id ob h = ground arith

    ReserveStep-Reserved :
        {r : _} {d' : State}
        → ReserveStep pg saga key sku q build d r d'
        → (o : ReserveOutcome) → r ≡ ok o
        → o.status ≡ ReserveStatus.reserved
        → pg.uuid_cast saga ≡ some u
        → find_saga u d.reservations ≡ none
        → Reserved d'
    ReserveStep-Reserved (ReserveStep.failed e x y) o h st cast new = cc
    ReserveStep-Reserved (ReserveStep.repeated w a c x y) o h st cast new =
        absurd (ground (arith, find_reserved-missing u d.reservations new))
    ReserveStep-Reserved (ReserveStep.refused ob p a b e i x y) o h st cast new =
        absurd (ground arith)
    ReserveStep-Reserved (ReserveStep.accepted w ob p a b c e f g x y) o h st cast new =
        let (topic, aggregate_id) = reserved_built _ ob f in
        let same : w ≡ u = ground arith in (ob, p, rw (← same) y, topic, aggregate_id)
    ReserveStep-Reserved (ReserveStep.accepted_again w old ob p a b c e f g x y) o h st cast new =
        absurd (ground arith)

    reserve_stock-Reserved :
        (res : ReserveResult) (d' : State)
        → reserve_stock lib entropy (repository pg) saga key sku q traceparent d ≡ (ok res, d')
        → res.status ≡ ReserveStatus.reserved
        → pg.uuid_cast saga ≡ some u
        → find_saga u d.reservations ≡ none
        → Reserved d'
    unfolding result_of
    reserve_stock-Reserved res d' h st cast new =
        let (o, call, told) =
          reserve_stock-returns lib entropy saga sku q traceparent pg key d res d' h in
        ReserveStep-Reserved (ReserveSteps.step_of pg saga key sku q build d call) o refl
          (ap (λ (x : ReserveResult). x.status) (sym told) ∙ st) cast new

  -- The same, of a ReserveStock request that is answered RESERVED.
  pub reserve_stock_rpc-Reserved :
      (entropy : Entropy) (tracing : Tracing) (md : List (String × String))
      (request : ReserveStockRequest) (u : String) (d : State) (response : ReserveStockResponse)
      (d' : State)
      → reserve_stock_rpc lib entropy (repository pg) tracing md request d ≡ (ok response, d')
      → response.status ≡ ProtoStatus.reserved
      → pg.uuid_cast request.saga_id ≡ some u
      → find_saga u d.reservations ≡ none
      → Reserved entropy request.saga_id request.idempotency_key request.sku u
          (tracing.within (incoming_traceparent tracing md))
          request.quantity
          d
          d'
  unfolding reserve_stock_rpc to_proto
  reserve_stock_rpc-Reserved entropy tracing md request u d response d' h st cast new =
      elim (Outcome-cases
        (reserve_stock lib entropy (repository pg) request.saga_id request.idempotency_key
          request.sku request.quantity (tracing.within (incoming_traceparent tracing md)) d).0) [
            | inl (e, x) ↦ absurd (ground (arith, x))
            | inr (res, x) ↦
                reserve_stock-Reserved entropy request.saga_id request.idempotency_key request.sku u
                  (tracing.within (incoming_traceparent tracing md)) request.quantity d res d'
                  (ground (arith, x)) (to_proto-reserved res.status (ground (arith, x))) cast new
          ]

  -- A cancellation that finds the reservation `old` of its saga.
  module _ (entropy : Entropy) (env : Envelope J) (id traceparent u : String) (d : State)
      (old : Reservation) where
    abbrev pub Cancelled : State → Type 0
    Cancelled d' =
        (ob : Insert) × (payload : String) × (d' ≡ record d {
          stock = set_stock (return_units old.quantity) old.sku d.stock;
          reservations = set_released u d.reservations;
          processed_messages =
              marker env.idempotency_key consumer_order_cancelled ∷ d.processed_messages;
          outbox = d.outbox ++ new_row ob payload d.now (pg.random_uuid d.drawn) ∷ [];
          drawn = suc d.drawn;
        })
        × (ob.topic ≡ topic_released)
        × (ob.aggregate_id ≡ env.saga_id)

    abbrev build_release : EventBuilder ReleaseOutcome
    build_release =
        build_release_event lib entropy env.saga_id id
          (event_traceparent lib entropy (repository pg) env traceparent)

    release_built :
        (o : ReleaseOutcome) (ob : Insert)
        → build_release o ≡ ok ob
        → (ob.topic ≡ topic_released) × (ob.aggregate_id ≡ env.saga_id)
    unfolding build_release_event released_event
    release_built o ob h = ground arith

    ReleaseStep-Cancelled :
        {r : _} {d' : State}
        → ReleaseStep pg env.saga_id id env.idempotency_key consumer_order_cancelled build_release d
            r d'
        → (o : ReleaseOutcome) → r ≡ ok o
        → is_processed env.idempotency_key consumer_order_cancelled d.processed_messages ≡ false
        → pg.uuid_cast env.saga_id ≡ some u
        → find_reserved u d.reservations ≡ some old
        → Cancelled d'
    ReleaseStep-Cancelled (ReleaseStep.failed e x y) o h fresh cast found = cc
    ReleaseStep-Cancelled (ReleaseStep.repeated a x y) o h fresh cast found = absurd (ground arith)
    ReleaseStep-Cancelled (ReleaseStep.nothing w a b c x y) o h fresh cast found =
        absurd (ground arith)
    ReleaseStep-Cancelled (ReleaseStep.returned w old' ob p a b c e f x y) o h fresh cast found =
        let (topic, aggregate_id) = release_built _ ob e in
        let same : w ≡ u = ground arith in
        let row : old' ≡ old = ground arith in (ob, p, rw (← same, ← row) y, topic, aggregate_id)

    pub on_message-Cancelled :
        (round : ℕ) (value : String) (d' : State)
        → on_message lib
            (repository pg)
            (λ _. entropy)
            round
            topic_order_cancelled
            value
            traceparent
            d
          ≡ (ok tt, d')
        → Carries lib pg value env id
        → is_processed env.idempotency_key consumer_order_cancelled d.processed_messages ≡ false
        → pg.uuid_cast env.saga_id ≡ some u
        → find_reserved u d.reservations ≡ some old
        → Cancelled d'
    unfolding on_message text_dec
    on_message-Cancelled round value d' h carries fresh cast found =
        let runs : _ =
          cancel_order-release lib pg (λ _. entropy) round value traceparent env id d carries in
        elim (Outcome-cases (cancel_release lib pg entropy env id traceparent d).0) [
          | inl (e, x) ↦ absurd (ground (arith, runs, x))
          | inr (o, x) ↦
              let after : (cancel_release lib pg entropy env id traceparent d).1 ≡ d' =
                ground (arith, runs) in
              rw (← after) (
                ReleaseStep-Cancelled (cancel_step lib pg entropy env id traceparent d) o x fresh
                  cast found)
        ]
