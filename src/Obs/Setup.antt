-- ===== src/Obs/Setup.antt =====
-- services/inventory/src/obs_otel.cpp: setup and shutdown, over the factories of OpenTelemetry, which
-- are parameters. `H` is the type of its objects.
use choreography_saga_demo.Base.{ℕ, String, List, [], ◌∷◌, ◌++◌, Option, none, some}
use choreography_saga_demo.Json.{Json}
use choreography_saga_demo.Obs.Log.{Telemetry, install_log_trace_context}

-- The factories and methods that setup calls. `reader` takes the export interval in milliseconds, and
-- `sdk_provider` is the dynamic_cast of shutdown.
pub record OtelSdk (H : Type 0) : Type 0 where
  pub resource : List (String × String) → H
  pub span_exporter : String → H
  pub batch_processor : H → H
  pub tracer_provider : H → H → H
  pub tracer : H → String → H
  pub metric_exporter : String → H
  pub reader : H → ℕ → H
  pub meter_provider : H → H
  pub add_reader : H → H → H
  pub meter : H → String → H
  pub counter : H → String → String → H
  pub trace_propagator : H
  pub sdk_provider : H → Option H

-- The objects that setup makes current in OpenTelemetry, the variables of obs_otel.cpp, the state of
-- obs.cpp, and the providers flushed.
pub record Globals (H J R : Type 0) : Type 0 where
  pub current_tracer_provider : Option H
  pub current_meter_provider : Option H
  pub current_propagator : Option H
  pub g_tracer : Option H
  pub g_reserve_counter : Option H
  pub g_propagator : Option H
  pub telemetry : Telemetry J R
  pub flushed : List H

module _ {H J R : Type 0} (sdk : OtelSdk H) (lib : Json J) where
  abbrev pub setup_traces : String → String → Globals H J R → Globals H J R
  setup_traces service_name otlp_endpoint g =
      let resource : H = sdk.resource (("service.name", service_name) ∷ []) in
      let provider : H =
        sdk.tracer_provider (sdk.batch_processor (sdk.span_exporter otlp_endpoint)) resource in
      record g {
        current_tracer_provider = some provider;
        g_tracer = some (sdk.tracer provider service_name);
      }

  -- The counter starts with no results.
  abbrev pub setup_metrics : String → String → Globals H J R → Globals H J R
  setup_metrics service_name otlp_endpoint g =
      let resource : H = sdk.resource (("service.name", service_name) ∷ []) in
      let reader : H = sdk.reader (sdk.metric_exporter otlp_endpoint) 15000 in
      let provider : H = sdk.add_reader (sdk.meter_provider resource) reader in
      record g {
        current_meter_provider = some provider;
        g_reserve_counter = some (
            sdk.counter (sdk.meter provider service_name) "inventory_reserve_total"
              "reserve outcomes");
        telemetry = record g.telemetry { reserve_counter = some [] };
      }

  abbrev pub setup_propagation : Globals H J R → Globals H J R
  setup_propagation g = record g {
    g_propagator = some sdk.trace_propagator;
    current_propagator = some sdk.trace_propagator;
    telemetry = install_log_trace_context lib g.telemetry;
  }

  unfoldable pub setup : String → String → Globals H J R → Globals H J R
  setup service_name otlp_endpoint g =
      setup_propagation
        (setup_metrics service_name otlp_endpoint (setup_traces service_name otlp_endpoint g))

  abbrev flush : Option H → Globals H J R → Globals H J R
  flush none g = g
  flush (some provider) g = record g { flushed = g.flushed ++ provider ∷ [] }

  -- Without setup, the current provider is not one of the SDK.
  unfoldable pub shutdown : Globals H J R → Globals H J R
  shutdown g = elim g.current_tracer_provider [
    | none ↦ g
    | some provider ↦ flush (sdk.sdk_provider provider) g
  ]
