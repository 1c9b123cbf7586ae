-- ===== src/Tests/Saga.antt =====
-- A saga over a broker that keeps what it accepts: two units reserved, announced, and given back.
use choreography_saga_demo.Base.{
  String, text_dec, ◌≡◌, refl, true, false, List, [], ◌∷◌, ◌++◌, none, arith,
}
use choreography_saga_demo.Base.Int.{pos, ◌+ℤ◌, ◌-ℤ◌}
use choreography_saga_demo.Base.Outcome.{ok}
use choreography_saga_demo.Outbox.{Message}
use choreography_saga_demo.Envelope.{Entropy, to_json, make_envelope}
use choreography_saga_demo.Envelope.RoundTrip.{parse-to_json}
use choreography_saga_demo.Uuid.{uuid_v4, hex_digit, version_byte, variant_byte}
use choreography_saga_demo.Database.Tables.{State}
use choreography_saga_demo.Database.Sql.{find_reserved}
use choreography_saga_demo.Database.OutboxSql.{count_rows}
use choreography_saga_demo.Database.{
  repository, reserve, release, fetch_pending, mark_published, outbox_repo,
}
use choreography_saga_demo.App.{
  topic_reserved, topic_released, topic_order_cancelled, reserve_stock, build_reserve_event,
  build_release_event, reserved_event, failed_event, released_event, result_of,
}
use choreography_saga_demo.Grpc.{
  Tracing, ProtoStatus, ReserveStockRequest, ReserveStockResponse, reserve_stock_rpc, to_proto,
}
use choreography_saga_demo.Process.{on_message}
use choreography_saga_demo.Process.Cancel.{Carries, cancel_release, cancel_order-release}
use choreography_saga_demo.Relay.{
  World, relay_rounds, drain_once, publish_all, publish_record, batch_size,
}
use choreography_saga_demo.Relay.Progress.{nothing_locked}
use choreography_saga_demo.Saga.Rest.{IsResting}
use choreography_saga_demo.Saga.Compensation.{compensated}
use choreography_saga_demo.Tests.Fixtures.{server, server-laws, seed}
use choreography_saga_demo.Tests.JsonModel.{model, model-laws}
use choreography_saga_demo.Tests.Calls.{cancelled, text_of_ok}
use choreography_saga_demo.Tests.Passes.{broker, clock}

abbrev drawn : Entropy
drawn = record { event_hi = 1; event_lo = 2; key_hi = 3; key_lo = 4; rfc3339_now = "now" }

abbrev traced : Tracing
traced = record { outside = "root"; within = λ parent. parent }

abbrev wanted : ReserveStockRequest
wanted = record { saga_id = "saga-1"; idempotency_key = "key-1"; sku = "SKU-1"; quantity = pos 2 }

abbrev granted : ReserveStockResponse
granted = record { status = ProtoStatus.reserved; reservation_id = "u"; message = "reserved" }

abbrev start : World State (List Message)
start = record { repo = seed; publisher = []; lags = [] }

abbrev d1 : State
d1 = (reserve_stock_rpc model drawn (repository server) traced [] wanted seed).1

abbrev w1 : World State (List Message)
w1 =
    relay_rounds (outbox_repo server nothing_locked) broker clock (pos 100) 1
      (record start { repo = d1 })

abbrev value : String
unfolding to_json
value = text_of_ok (to_json model cancelled)

abbrev d3 : State
d3 =
    (on_message model (repository server) (λ _. drawn) 7 topic_order_cancelled value "tp" w1.repo).1

seed-IsResting : IsResting server seed
seed-IsResting = record {
  ready = record { unique = tt; canonical = tt; left = tt };
  undrawn = λ k h. tt;
  sent = refl;
}

granted_call :
    reserve_stock_rpc model drawn (repository server) traced [] wanted seed ≡ (ok granted, d1)
unfolding reserve_stock_rpc to_proto reserve_stock reserve build_reserve_event reserved_event
    failed_event result_of text_dec ◌+ℤ◌ ◌-ℤ◌ to_json make_envelope uuid_v4 hex_digit version_byte
    variant_byte
granted_call = refl

value-Carries : Carries model server value cancelled "u"
unfolding to_json text_dec
value-Carries = (
  parse-to_json model model-laws cancelled value (omega arith) refl,
  model-laws.value_text-text (("reservationId", model.text "u") ∷ []) "reservationId" "" "u" refl,
)

released_call :
    (cancel_release model server drawn cancelled "u" "tp" w1.repo).0
    ≡ ok (record { released = true; duplicate = false })
unfolding relay_rounds drain_once fetch_pending mark_published publish_all publish_record
    reserve_stock_rpc to_proto reserve_stock reserve release build_reserve_event reserved_event
    build_release_event released_event failed_event result_of text_dec ◌+ℤ◌ ◌-ℤ◌ to_json
    make_envelope uuid_v4 hex_digit version_byte variant_byte
released_call = refl

handled_call :
    on_message model (repository server) (λ _. drawn) 7 topic_order_cancelled value "tp" w1.repo
    ≡ (ok tt, d3)
unfolding on_message text_dec
handled_call = ground (
  arith,
  released_call,
  cancel_order-release model server (λ _. drawn) 7 value "tp" cancelled "u" w1.repo value-Carries,
)

compensated_example :
    let w2 : World State (List Message) =
      relay_rounds
        (outbox_repo server nothing_locked)
        broker
        clock
        (pos 100)
        1
        (record w1 { repo = d3 }) in
    (w2.repo.stock ≡ seed.stock)
    × (find_reserved "saga-1" w2.repo.reservations ≡ none)
    × (count_rows w2.repo.outbox ≡ 0)
    × ((a b : Message) × (w2.publisher ≡ [] ++ a ∷ b ∷ [])
        × (a.topic ≡ topic_reserved)
        × (a.key ≡ "saga-1")
        × (b.topic ≡ topic_released)
        × (b.key ≡ "saga-1"))
unfolding text_dec batch_size
compensated_example =
    compensated model server server-laws broker (λ p. p) clock (pos 100) (λ m p. refl) (λ m p. refl)
      drawn drawn traced [] wanted granted "saga-1" cancelled "u" value "tp" 7 1 1 start d1 d3
      seed-IsResting (omega arith) (omega arith) refl refl refl refl value-Carries granted_call refl
      handled_call
