-- ===== src/Saga/Compensation.antt =====
-- A saga that reserves and is cancelled, with the relay's rounds after each.
use choreography_saga_demo.Base.{
  ℕ, suc, ◌*◌, ◌≤◌, String, text_ne, ◌≡◌, refl, ap, ◌∙◌, false, List, [], ◌∷◌, ◌++◌, none, some,
  arith,
}
use mathlib.Core.List.{append_assoc}
use choreography_saga_demo.Base.Int.{ℤ}
use choreography_saga_demo.Base.Outcome.{ok}
use choreography_saga_demo.Outbox.{Publisher, Message, message_of}
use choreography_saga_demo.Domain.{ReservationState}
use choreography_saga_demo.Json.{Json}
use choreography_saga_demo.Envelope.{Envelope, Entropy}
use choreography_saga_demo.Database.Tables.{Postgres, PostgresLaws, Reservation, State}
use choreography_saga_demo.Database.Sql.{
  is_processed, find_saga, find_reserved, marker, set_stock, take_units, return_units,
}
use choreography_saga_demo.Database.OutboxSql.{new_row, count_rows}
use choreography_saga_demo.Database.ReserveSteps.{new_reservation}
use choreography_saga_demo.Database.ReleaseSteps.{set_released-closed}
use choreography_saga_demo.Database.Undo.{return-take}
use choreography_saga_demo.Database.{repository, record_of, consumer_reserve}
use choreography_saga_demo.App.{
  topic_reserved, topic_released, topic_order_cancelled, consumer_order_cancelled,
}
use choreography_saga_demo.Grpc.{
  Tracing, ProtoStatus, ReserveStockRequest, ReserveStockResponse, incoming_traceparent,
  reserve_stock_rpc,
}
use choreography_saga_demo.Process.{on_message}
use choreography_saga_demo.Process.Cancel.{Carries}
use choreography_saga_demo.Relay.{World}
use choreography_saga_demo.Relay.Pass.{batch}
use choreography_saga_demo.Relay.Progress.{Accepts}
use choreography_saga_demo.Relay.Once.{Logs}
use choreography_saga_demo.Saga.Rest.{IsResting, rounds_of, sends-added}
use choreography_saga_demo.Saga.Steps.{
  build, Reserved, reserve_stock_rpc-Reserved, Cancelled, on_message-Cancelled,
}

module _ {J P : Type 0} (lib : Json J) (pg : Postgres) (laws : PostgresLaws pg)
    (publisher : Publisher P) (log : P → List Message) (clock : ℕ → ℕ) (size : ℤ)
    (accepts : Accepts publisher) (logs : Logs publisher log) where
  abbrev rounds : ℕ → World State P → World State P
  rounds n w = rounds_of pg publisher log clock size accepts logs n w

  module _ (entropy : Entropy) (saga key sku u traceparent : String) (q : ℤ) (w : World State P)
      (rest : IsResting pg w.repo) (d1 : State)
      (reserved : Reserved lib pg entropy saga key sku u traceparent q w.repo d1) (n : ℕ)
      (enough : 1 ≤ n * batch size) where
    abbrev held : Reservation
    held =
        new_reservation pg saga key sku q (build lib pg entropy saga key sku u traceparent q w.repo)
          w.repo u

    -- The relay announces the reservation, and leaves the rest of the tables.
    announced :
        let w1 : World State P = rounds n (record w { repo = d1 }) in
        IsResting pg w1.repo
        × (w1.repo ≡ record d1 { outbox = w1.repo.outbox })
        × ((m : Message) × (log w1.publisher ≡ log w.publisher ++ m ∷ [])
            × (m.topic ≡ topic_reserved)
            × (m.key ≡ saga))
    announced =
        let (ob, payload, is, topic, aggregate_id) = reserved in
        let sent : _ =
          sends-added pg publisher log clock size accepts logs laws w.repo rest ob payload
            (suc w.repo.drawn) (omega arith) n (record w { repo = d1 })
            (ap (λ (d : State). d.outbox) is) (omega (arith, ap (λ (d : State). d.drawn) is))
            enough in
        (
          sent.0,
          sent.1,
          (
            message_of
                (record_of (new_row ob payload w.repo.now (pg.random_uuid (suc w.repo.drawn)))),
            sent.2,
            topic,
            aggregate_id,
          ),
        )

  -- The relay announces the release.
  returned :
      (entropy : Entropy) (env : Envelope J) (id traceparent u : String) (w : World State P)
      (old : Reservation) (d' : State)
      → IsResting pg w.repo
      → Cancelled lib pg entropy env id traceparent u w.repo old d'
      → (n : ℕ) → 1 ≤ n * batch size
      → let w' : World State P = rounds n (record w { repo = d' }) in
        (w'.repo.stock ≡ set_stock (return_units old.quantity) old.sku w.repo.stock)
        × (find_reserved u w'.repo.reservations ≡ none)
        × (count_rows w'.repo.outbox ≡ 0)
        × ((m : Message) × (log w'.publisher ≡ log w.publisher ++ m ∷ [])
            × (m.topic ≡ topic_released)
            × (m.key ≡ env.saga_id))
  returned entropy env id traceparent u w old d' rest cancelled n enough =
      let (ob, payload, is, topic, aggregate_id) = cancelled in
      let sent : _ =
        sends-added pg publisher log clock size accepts logs laws w.repo rest ob payload
          w.repo.drawn (omega arith) n (record w { repo = d' }) (ap (λ (d : State). d.outbox) is)
          (omega (arith, ap (λ (d : State). d.drawn) is)) enough in
      (
        ap (λ (d : State). d.stock) sent.1 ∙ ap (λ (d : State). d.stock) is,
        ap (find_reserved u)
              (ap (λ (d : State). d.reservations) sent.1 ∙ ap (λ (d : State). d.reservations) is)
            ∙ set_released-closed u w.repo.reservations,
        sent.0.sent,
        (
          message_of (record_of (new_row ob payload w.repo.now (pg.random_uuid w.repo.drawn))),
          sent.2,
          topic,
          aggregate_id,
        ),
      )

  other_consumer :
      (key key' : String) (ms : _)
      → is_processed key' consumer_order_cancelled ms ≡ false
      → is_processed key' consumer_order_cancelled (marker key consumer_reserve ∷ ms) ≡ false
  other_consumer key key' ms h =
      ground (arith, text_ne "inventory-reserve" "inventory-order-cancelled" refl)

  found_held :
      (u : String) (r : Reservation) (rs : List Reservation)
      → r.saga_id ≡ u
      → r.status ≡ ReservationState.reserved
      → find_reserved u (r ∷ rs) ≡ some r
  found_held u r rs h st = ground arith

  -- A publisher accepts every message and appends it to its log, no row is locked, and at the start
  -- nothing is pending (row ids are valid, distinct and not still to be drawn, and attempts can be
  -- counted). A ReserveStock request for a saga without a reservation is answered RESERVED; the relay
  -- makes one round or more; a message of order.cancelled with the saga's id, in whatever spelling, whose
  -- key the consumer has not handled, is handled without an exception; the relay makes one round or
  -- more. Then every stock count is what it was at the start, the saga has no open reservation, nothing
  -- is pending, and the log has grown by two messages: one to inventory.reserved, and then one to
  -- inventory.released, each under the saga's id as the request and the message spell it.
  pub compensated :
      (entropy entropy' : Entropy) (tracing : Tracing) (md : List (String × String))
      (request : ReserveStockRequest) (response : ReserveStockResponse) (u : String)
      (env : Envelope J) (id value traceparent : String) (round n m : ℕ) (w : World State P)
      (d1 d3 : State)
      → IsResting pg w.repo
      → 1 ≤ n * batch size
      → 1 ≤ m * batch size
      → pg.uuid_cast request.saga_id ≡ some u
      → pg.uuid_cast env.saga_id ≡ some u
      → find_saga u w.repo.reservations ≡ none
      → is_processed env.idempotency_key consumer_order_cancelled w.repo.processed_messages ≡ false
      → Carries lib pg value env id
      → reserve_stock_rpc lib entropy (repository pg) tracing md request w.repo ≡ (ok response, d1)
      → response.status ≡ ProtoStatus.reserved
      → on_message lib
          (repository pg)
          (λ _. entropy')
          round
          topic_order_cancelled
          value
          traceparent
          (rounds n (record w { repo = d1 })).repo
        ≡ (ok tt, d3)
      → let w2 : World State P =
          rounds m (record (rounds n (record w { repo = d1 })) { repo = d3 }) in
        (w2.repo.stock ≡ w.repo.stock)
        × (find_reserved u w2.repo.reservations ≡ none)
        × (count_rows w2.repo.outbox ≡ 0)
        × ((a b : Message) × (log w2.publisher ≡ log w.publisher ++ a ∷ b ∷ [])
            × (a.topic ≡ topic_reserved)
            × (a.key ≡ request.saga_id)
            × (b.topic ≡ topic_released)
            × (b.key ≡ env.saga_id))
  compensated entropy entropy' tracing md request response u env id value traceparent round n m w d1
        d3 rest more more' cast cast' new fresh carries reserves st cancels =
      let tp : String = tracing.within (incoming_traceparent tracing md) in
      let reserved : Reserved lib pg entropy request.saga_id request.idempotency_key request.sku u
          tp request.quantity w.repo d1 =
        reserve_stock_rpc-Reserved lib pg entropy tracing md request u w.repo response d1 reserves
          st cast new in
      let w1 : World State P = rounds n (record w { repo = d1 }) in
      let old : Reservation =
        held entropy request.saga_id request.idempotency_key request.sku u tp request.quantity w
          rest d1 reserved n more in
      let (rest1, same1, (a, log1, topic1, key1)) =
        announced entropy request.saga_id request.idempotency_key request.sku u tp request.quantity
          w rest d1 reserved n more in
      let (ob1, payload1, is1, top, agg) = reserved in
      let reservations1 : w1.repo.reservations ≡ old ∷ w.repo.reservations =
        ap (λ (d : State). d.reservations) same1 ∙ ap (λ (d : State). d.reservations) is1 in
      let stock1 : w1.repo.stock
          ≡ set_stock (take_units request.quantity) request.sku w.repo.stock =
        ap (λ (d : State). d.stock) same1 ∙ ap (λ (d : State). d.stock) is1 in
      let processed1 : w1.repo.processed_messages
          ≡ marker request.idempotency_key consumer_reserve ∷ w.repo.processed_messages =
        ap (λ (d : State). d.processed_messages) same1
        ∙ ap (λ (d : State). d.processed_messages) is1 in
      let cancelled : Cancelled lib pg entropy' env id traceparent u w1.repo old d3 =
        on_message-Cancelled lib pg entropy' env id traceparent u w1.repo old round value d3 cancels
          carries
          (ap (is_processed env.idempotency_key consumer_order_cancelled) processed1
            ∙ other_consumer request.idempotency_key env.idempotency_key w.repo.processed_messages
                fresh)
          cast'
          (ap (find_reserved u) reservations1 ∙ found_held u old w.repo.reservations refl refl) in
      let (stock2, closed, sent, (b, log2, topic2, key2)) =
        returned entropy' env id traceparent u w1 old d3 rest1 cancelled m more' in
      (
        stock2
            ∙ ap (set_stock (return_units request.quantity) request.sku) stock1
            ∙ return-take request.quantity request.sku w.repo.stock,
        closed,
        sent,
        (
          a,
          b,
          log2 ∙ ap (λ ms. ms ++ b ∷ []) log1 ∙ append_assoc (log w.publisher) (a ∷ []) (b ∷ []),
          topic1,
          key1,
          topic2,
          key2,
        ),
      )
