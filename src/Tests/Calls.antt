-- ===== src/Tests/Calls.antt =====
-- Calls of the application over Database, and the theorems on envelopes and calls at concrete inputs.
use choreography_saga_demo.Base.{
  String, text_dec, ◌≡◌, refl, ◌⊎◌, inr, true, false, List, [], ◌∷◌, arith,
}
use choreography_saga_demo.Base.Int.{pos, ◌+ℤ◌, ◌-ℤ◌}
use choreography_saga_demo.Base.Outcome.{Outcome, ok, throws}
use choreography_saga_demo.Domain.{ReserveStatus, poison_sku}
use choreography_saga_demo.Uuid.{uuid_v4, hex_digit, version_byte, variant_byte}
use choreography_saga_demo.Uuid.Format.{Follows, uuid_shape, chars, uuid_v4_shape}
use choreography_saga_demo.Envelope.{Envelope, Entropy, to_json, parse, make_envelope}
use choreography_saga_demo.Envelope.RoundTrip.{parse-to_json}
use choreography_saga_demo.App.{
  release_stock, consumer_release, ReserveResult, reserve_stock, handle_order_cancelled,
  build_reserve_event, build_release_event, reserved_event, failed_event, released_event, result_of,
}
use choreography_saga_demo.App.Releases.{Told, release_stock-Told}
use choreography_saga_demo.App.Events.{Announces, reserve_stock-Announces}
use choreography_saga_demo.App.Service.{reserve_stock-poison}
use choreography_saga_demo.Database.Tables.{State}
use choreography_saga_demo.Database.Validity.{RepeatsOrNew}
use choreography_saga_demo.Database.Sql.{is_processed}
use choreography_saga_demo.Database.{repository, reserve, release, consumer_reserve}
use choreography_saga_demo.Tests.Fixtures.{server, server-laws, seed}
use choreography_saga_demo.Grpc.{
  Tracing, ProtoStatus, ReserveStockRequest, ReserveStockResponse, to_proto, reserve_stock_rpc,
}
use choreography_saga_demo.Grpc.Retry.{reserve_stock_rpc-retry}
use choreography_saga_demo.Tests.JsonModel.{model, model-laws, fields_of, text_of}
use Prim.Native.Char.{Char}

abbrev entropy : Entropy
entropy = record {
  event_hi = 0xfedcba9876543210;
  event_lo = 0x0123456789abcdef;
  key_hi = 7;
  key_lo = 9;
  rfc3339_now = "2026-01-02T03:04:05.678Z";
}

generated_id :
    uuid_v4 0xfedcba9876543210 0x0123456789abcdef ≡ "10325476-98ba-4cfe-afcd-ab8967452301"
unfolding uuid_v4 hex_digit version_byte variant_byte
generated_id = refl

uuid_v4_shape_example : Follows uuid_shape (chars (uuid_v4 0xfedcba9876543210 0x0123456789abcdef))
uuid_v4_shape_example = uuid_v4_shape 0xfedcba9876543210 0x0123456789abcdef

abbrev pub cancelled : Envelope (List Char)
cancelled = record {
  event_id = "e-1";
  event_type = "OrderCancelled";
  version = pos 1;
  occurred_at = "2026-01-02T03:04:05.678Z";
  saga_id = "saga-1";
  idempotency_key = "key-2";
  traceparent = "";
  payload = model.object (("reservationId", model.text "u") ∷ []);
}

abbrev pub text_of_ok : Outcome String → String
text_of_ok (ok s) = s
text_of_ok (throws e) = ""

parse-to_json_example : parse model (text_of_ok (to_json model cancelled)) ≡ ok cancelled
unfolding to_json
parse-to_json_example =
    parse-to_json model model-laws cancelled (text_of_ok (to_json model cancelled)) (omega arith)
      refl

abbrev told : ReserveResult
told = record { status = ReserveStatus.reserved; reservation_id = "u"; message = "reserved" }

abbrev held : State
held =
    (reserve_stock model entropy (repository server) "saga-1" "key-1" "SKU-1" (pos 2) "tp" seed).1

first_call :
    reserve_stock model entropy (repository server) "saga-1" "key-1" "SKU-1" (pos 2) "tp" seed
    ≡ (ok told, held)
unfolding reserve_stock reserve build_reserve_event reserved_event failed_event result_of text_dec
    ◌+ℤ◌ ◌-ℤ◌ to_json make_envelope uuid_v4 hex_digit version_byte variant_byte
first_call = refl

reserve_stock-Announces_example :
    ((is_processed "key-1" consumer_reserve seed.processed_messages ≡ true) × (held ≡ seed))
    ⊎ ((is_processed "key-1" consumer_reserve seed.processed_messages ≡ false)
        × (is_processed "key-1" consumer_reserve held.processed_messages ≡ true)
        × Announces "saga-1" "tp" told.status seed.outbox held.outbox)
reserve_stock-Announces_example =
    reserve_stock-Announces model entropy "saga-1" "SKU-1" (pos 2) "tp" server "key-1" seed told
      held first_call

new_saga : RepeatsOrNew server "saga-1" "key-1" seed
new_saga = inr (λ u h. refl)

abbrev refused : ReserveResult
refused = record {
  status = ReserveStatus.insufficient_stock;
  reservation_id = "";
  message = "poison SKU forced failure";
}

abbrev poisoned : State
poisoned =
    (reserve_stock model entropy (repository server) "saga-2" "key-2" poison_sku (pos 1) "tp"
      seed).1

poison_call :
    reserve_stock model entropy (repository server) "saga-2" "key-2" poison_sku (pos 1) "tp" seed
    ≡ (ok refused, poisoned)
unfolding reserve_stock reserve build_reserve_event reserved_event failed_event result_of text_dec
    ◌+ℤ◌ ◌-ℤ◌ to_json make_envelope uuid_v4 hex_digit version_byte variant_byte
poison_call = refl

reserve_stock-poison_example :
    (poisoned.stock ≡ seed.stock)
    × (poisoned.reservations ≡ seed.reservations)
    × (refused.status ≡ ReserveStatus.insufficient_stock)
reserve_stock-poison_example =
    reserve_stock-poison model entropy server "saga-2" "key-2" (pos 1) "tp" seed refused poisoned
      refl poison_call

abbrev freed : State
freed = (handle_order_cancelled model entropy (repository server) cancelled "tp" held).1

cancel_call :
    handle_order_cancelled model entropy (repository server) cancelled "tp" held ≡ (ok tt, freed)
unfolding handle_order_cancelled release reserve_stock reserve build_reserve_event reserved_event
    failed_event build_release_event released_event text_dec ◌+ℤ◌ ◌-ℤ◌ to_json make_envelope uuid_v4
    hex_digit version_byte variant_byte fields_of text_of
cancel_call = refl

freed_stock : freed.stock ≡ seed.stock
unfolding handle_order_cancelled release reserve_stock reserve build_reserve_event reserved_event
    failed_event build_release_event released_event text_dec ◌+ℤ◌ ◌-ℤ◌ to_json make_envelope uuid_v4
    hex_digit version_byte variant_byte fields_of text_of
freed_stock = refl

abbrev tracing : Tracing
tracing = record { outside = ""; within = λ parent. parent }

abbrev request : ReserveStockRequest
request = record { saga_id = "saga-1"; idempotency_key = "key-1"; sku = "SKU-1"; quantity = pos 2 }

abbrev metadata : List (String × String)
metadata = ("traceparent", "tp") ∷ []

abbrev response : ReserveStockResponse
response = record { status = ProtoStatus.reserved; reservation_id = "u"; message = "reserved" }

rpc_call :
    reserve_stock_rpc model entropy (repository server) tracing metadata request seed
    ≡ (ok response, held)
unfolding reserve_stock_rpc to_proto reserve_stock reserve build_reserve_event reserved_event
    failed_event result_of text_dec ◌+ℤ◌ ◌-ℤ◌ to_json make_envelope uuid_v4 hex_digit version_byte
    variant_byte
rpc_call = refl

reserve_stock_rpc-retry_example :
    (again : ReserveStockResponse) × (reserve_stock_rpc model entropy
        (repository server)
        tracing
        []
        request
        held
      ≡ (ok again, held))
    × (again.status ≡ response.status)
    × (again.reservation_id ≡ response.reservation_id)
unfolding text_dec
reserve_stock_rpc-retry_example =
    reserve_stock_rpc-retry model server server-laws entropy entropy tracing tracing metadata []
      request "saga-1" seed refl new_saga response held rpc_call

abbrev returned : State
returned = (release_stock model entropy (repository server) "saga-1" "u" "key-3" "tp-3" held).1

release_call :
    release_stock model entropy (repository server) "saga-1" "u" "key-3" "tp-3" held
    ≡ (ok true, returned)
unfolding release_stock release reserve_stock reserve build_reserve_event reserved_event
    failed_event build_release_event released_event text_dec ◌+ℤ◌ ◌-ℤ◌ to_json make_envelope uuid_v4
    hex_digit version_byte variant_byte
release_call = refl

unmarked : is_processed "key-3" consumer_release held.processed_messages ≡ false
unfolding reserve_stock reserve build_reserve_event reserved_event failed_event text_dec ◌+ℤ◌ ◌-ℤ◌
    to_json make_envelope uuid_v4 hex_digit version_byte variant_byte
unmarked = refl

release_stock-Told_example :
    Told model entropy server "saga-1" "u" "key-3" "tp-3" "saga-1" held true returned
unfolding text_dec
release_stock-Told_example =
    release_stock-Told model entropy server "saga-1" "u" "key-3" "tp-3" "saga-1" held true returned
      unmarked refl release_call
