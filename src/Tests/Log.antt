-- ===== src/Tests/Log.antt =====
-- A log line.
use Prim.Native.Char.{Char}
use choreography_saga_demo.Base.{ℕ, String, ◌≡◌, refl, List, [], ◌∷◌, none, some, text_dec}
use choreography_saga_demo.Base.Outcome.{ok}
use choreography_saga_demo.Json.{field}
use choreography_saga_demo.Clock.{timestamp}
use choreography_saga_demo.Obs.Log.{
  Telemetry, SpanContext, emit, install_log_trace_context, inject_traceparent, carrier_set,
  log_fields,
}
use choreography_saga_demo.Obs.Lines.{logged, last_value, span_value, emit-field}
use choreography_saga_demo.Tests.JsonModel.{model, model-laws}
use choreography_saga_demo.Uuid.{of_chars}

abbrev quiet : Telemetry (List Char) (List ℕ)
quiet = record {
  trace_context = none;
  outbox_lag = none;
  recorded = [];
  reserve_counter = none;
  out = [];
}

abbrev ids : SpanContext
ids = some ("0af7651916cd43dd8448eb211c80319c", "b7ad6b7169203331")

abbrev with_level : List (String × List Char)
with_level = ("level", model.text "DEBUG") ∷ ("sku", model.text "SKU-1") ∷ []

-- A field of a call can take the place of the level.
abbrev line : String
line =
    of_chars
      (model.object (logged model 1700000000000000000 ids "INFO" "stock reserved" with_level))

emit-field_example :
    let (r, s') =
      emit model 1700000000000000000 ids "INFO" "stock reserved" with_level
        (install_log_trace_context model quiet) in
    (r ≡ ok tt)
    × (s'.out ≡ line ∷ [])
    × (model.parse line
        ≡ some (
            model.object (logged model 1700000000000000000 ids "INFO" "stock reserved" with_level)))
    × (field "level" (logged model 1700000000000000000 ids "INFO" "stock reserved" with_level)
        ≡ span_value model "level" ids (
            last_value "level" with_level (
              field "level"
                (log_fields model (timestamp 1700000000000000000) "INFO" "stock reserved"))))
emit-field_example =
    emit-field model model-laws 1700000000000000000 ids "INFO" "stock reserved" line "level"
      with_level quiet refl

injects : inject_traceparent (some (carrier_set "traceparent" "00-trace")) ≡ "00-trace"
unfolding text_dec
injects = refl
