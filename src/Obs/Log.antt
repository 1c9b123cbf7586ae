-- ===== src/Obs/Log.antt =====
-- services/inventory/src/obs.cpp, and of src/obs_otel.cpp what it installs there, the reservation
-- counter and inject_traceparent. What the tracing library says of the current span is a parameter.
use choreography_saga_demo.Base.{ℕ, String, text_dec, List, [], ◌∷◌, ◌++◌, Option, none, some, ite}
use choreography_saga_demo.Base.Int.{ℤ}
use choreography_saga_demo.Base.Outcome.{ok, throws, Proc}
use choreography_saga_demo.Json.{Json, field}
use choreography_saga_demo.Clock.{timestamp}

-- `obj[key] = value`, on a JSON object or a std::map; Field is the pair.
abbrev pub assign : {A : Type 0} → String → A → List (String × A) → List (String × A)
assign key value [] = (key, value) ∷ []
assign key value ((k, v) ∷ rest) =
    ite (text_dec k key) ((k, value) ∷ rest) ((k, v) ∷ assign key value rest)

-- trace_id and span_id of the current span, in lower-case base 16; `none`: its context is not valid.
abbrev pub SpanContext : Type 0
SpanContext = Option (String × String)

-- The hooks of obs.cpp, what was recorded by `outbox_lag` (in whole seconds), the counter of reservations by their result,
-- and the lines written to std::cout.
pub record Telemetry (J R : Type 0) : Type 0 where
  pub trace_context : Option (SpanContext → List (String × J) → List (String × J))
  pub outbox_lag : Option (ℤ → R → R)
  pub recorded : R
  pub reserve_counter : Option (List String)
  pub out : List String

-- `for (const Field& f : fields) obj[f.key] = f.value;`
abbrev pub add_fields : {J : Type 0} → List (String × J) → List (String × J) → List (String × J)
add_fields [] obj = obj
add_fields ((key, value) ∷ more) obj = add_fields more (assign key value obj)

abbrev pub with_context :
    {J : Type 0}
    → Option (SpanContext → List (String × J) → List (String × J))
    → SpanContext
    → List (String × J)
    → List (String × J)
with_context none span obj = obj
with_context (some f) span obj = f span obj

module _ {J : Type 0} (lib : Json J) where
  abbrev pub log_fields : String → String → String → List (String × J)
  log_fields time level message =
      ("timestamp", lib.text time)
      ∷ ("level", lib.text level)
      ∷ ("logger", lib.text "inventory")
      ∷ ("message", lib.text message)
      ∷ []

  -- The provider that setup() installs.
  abbrev pub stamp_span : SpanContext → List (String × J) → List (String × J)
  stamp_span none obj = obj
  stamp_span (some (trace_id, span_id)) obj =
      assign "span_id" (lib.text span_id) (assign "trace_id" (lib.text trace_id) obj)

abbrev pub set_trace_context_provider :
    {J R : Type 0}
    → (SpanContext → List (String × J) → List (String × J))
    → Telemetry J R
    → Telemetry J R
set_trace_context_provider f s = record s { trace_context = some f }

module _ {J R : Type 0} (lib : Json J) where
  -- `now` is the system clock, `span` the current span.
  unfoldable pub emit :
      ℕ → SpanContext → String → String → List (String × J) → Proc (Telemetry J R) (Unit {0})
  emit now span level message fields s =
      elim (lib.dump (
        lib.object (
          with_context s.trace_context span
            (add_fields fields (log_fields lib (timestamp now) level message))))) [
              | ok line ↦ (ok tt, record s { out = s.out ++ line ∷ [] })
              | throws e ↦ (throws e, s)
            ]

  abbrev pub log_info :
      ℕ → SpanContext → String → List (String × J) → Proc (Telemetry J R) (Unit {0})
  log_info now span message fields = emit now span "INFO" message fields

  abbrev pub log_error :
      ℕ → SpanContext → String → List (String × J) → Proc (Telemetry J R) (Unit {0})
  log_error now span message fields = emit now span "ERROR" message fields

  abbrev pub install_log_trace_context : Telemetry J R → Telemetry J R
  install_log_trace_context s = set_trace_context_provider (stamp_span lib) s

module _ {J R : Type 0} where
  abbrev pub set_outbox_lag_recorder : (ℤ → R → R) → Telemetry J R → Telemetry J R
  set_outbox_lag_recorder f s = record s { outbox_lag = some f }

  abbrev pub record_outbox_publish_lag : ℤ → Telemetry J R → Telemetry J R
  record_outbox_publish_lag seconds s = elim s.outbox_lag [
    | none ↦ s
    | some f ↦ record s { recorded = f seconds s.recorded }
  ]

  abbrev pub record_reserve : String → Telemetry J R → Telemetry J R
  record_reserve result s = elim s.reserve_counter [
    | none ↦ s
    | some results ↦ record s { reserve_counter = some (results ++ result ∷ []) }
  ]

-- MapCarrier.
abbrev pub carrier_get : String → List (String × String) → String
carrier_get key entries = elim (field key entries) [ none ↦ "" | some value ↦ value ]

abbrev pub carrier_set : String → String → List (String × String) → List (String × String)
carrier_set key value entries = assign key value entries

-- `inject` is what the propagator sets in an empty carrier for the current context.
abbrev pub inject_traceparent : Option (List (String × String) → List (String × String)) → String
inject_traceparent none = ""
inject_traceparent (some inject) = carrier_get "traceparent" (inject [])
