-- ===== src/Tests/Served.antt =====
-- The handlers with their telemetry: a request that is answered, and a message that is read.
use Prim.Native.Char.{Char}
use choreography_saga_demo.Base.{String, ℕ, text_dec, ◌≡◌, refl, true, List, [], ◌∷◌, none, some}
use choreography_saga_demo.Base.Int.{pos, ◌+ℤ◌}
use choreography_saga_demo.Base.Outcome.{Error, runtime_error, throws, Proc}
use choreography_saga_demo.Domain.{to_string}
use choreography_saga_demo.Repository.{ReserveOutcome}
use choreography_saga_demo.Envelope.{Entropy}
use choreography_saga_demo.Obs.Log.{record_reserve}
use choreography_saga_demo.Obs.Spans.{running, no_spans}
use choreography_saga_demo.Obs.Host.{Host, Moment, spanned}
use choreography_saga_demo.Obs.Handled.{Handled}
use choreography_saga_demo.App.Logs.{inventory_app, reserve_line}
use choreography_saga_demo.Database.Tables.{State}
use choreography_saga_demo.Database.{repository, outbox_repo, fetch_pending, mark_failed}
use choreography_saga_demo.Grpc.{Tracing, ReserveStockRequest}
use choreography_saga_demo.Grpc.Handlers.{serve_reserve_stock}
use choreography_saga_demo.Grpc.Served.{
  reserve_call, reserve_response, serve_reserve_stock-IsHandled,
}
use choreography_saga_demo.Process.Threads.{callback}
use choreography_saga_demo.Process.Rounds.{relay_thread, failed_passes, Ends, relay_thread-Ends}
use choreography_saga_demo.Kafka.{Handler, Consumed, Poll, consume_error, received}
use choreography_saga_demo.Kafka.Logs.{run_logs, Leaves, run_logs-Leaves}
use choreography_saga_demo.Outbox.{Publisher, Message}
use choreography_saga_demo.Relay.{World, drain_once}
use choreography_saga_demo.Relay.Progress.{nothing_locked}
use choreography_saga_demo.Tests.Passes.{world, clock}
use choreography_saga_demo.Tests.Fixtures.{server, seed}
use choreography_saga_demo.Tests.JsonModel.{model}

abbrev pub draw : Entropy
draw = record { event_hi = 1; event_lo = 2; key_hi = 3; key_lo = 4; rfc3339_now = "now" }

abbrev pub noon : Moment
noon = record { now = 0; span = some ("trace", "span") }

-- After setup().
abbrev pub host : Host State (List Char) (List ℕ)
host = record {
  repo = seed;
  telemetry = record {
    trace_context = none;
    outbox_lag = none;
    recorded = [];
    reserve_counter = some [];
    out = [];
  };
  spans = running (no_spans true true);
}

abbrev pub traced : Tracing
traced = record { outside = "root"; within = λ parent. parent }

abbrev wanted : ReserveStockRequest
wanted = record { saga_id = "saga-1"; idempotency_key = "key-1"; sku = "SKU-1"; quantity = pos 2 }

serve_reserve_stock-IsHandled_example :
    let call : Proc State ReserveOutcome =
      reserve_call model draw (repository server) traced (("traceparent", "tp") ∷ []) wanted in
    let (r, h') =
      serve_reserve_stock
        (inventory_app model (repository server))
        draw
        noon
        0
        traced
        (("traceparent", "tp") ∷ [])
        wanted
        host in
    (h'.repo ≡ (call seed).1)
    × (h'.spans ≡ running (spanned "ReserveStock" "tp" (no_spans true true)))
    × Handled model noon host.telemetry
        (call seed).0
        (reserve_line model "saga-1" "SKU-1")
        (reserve_response wanted)
        (λ o. record_reserve (to_string o.status))
        r
        h'.telemetry
unfolding text_dec
serve_reserve_stock-IsHandled_example =
    serve_reserve_stock-IsHandled model draw (repository server) noon 0 traced
      (("traceparent", "tp") ∷ []) host (no_spans true true) wanted refl refl

-- Each exception has a text.
abbrev pub what : Error → String
what (runtime_error s) = s
what _ = "error"

abbrev polled : List Poll
polled =
    consume_error "broker down"
    ∷ received (record {
      topic_name = "order.cancelled";
      partition = 0;
      offset = 7;
      payload = "no JSON";
      traceparents = "tp" ∷ [];
    })
    ∷ []

abbrev its_callback : Handler (Host State (List Char) (List ℕ))
its_callback = callback model (repository server) (λ _. draw) (λ _. noon) (λ round. round)

abbrev waiting : Consumed (Host State (List Char) (List ℕ))
waiting = record { app = host; commits = [] }

run_logs-Leaves_example :
    let (r, w') = run_logs model what (λ _. noon) its_callback 0 polled waiting in
    Leaves model its_callback waiting r w'
run_logs-Leaves_example = run_logs-Leaves model what (λ _. noon) its_callback 0 polled waiting

-- A publisher that refuses every message.
abbrev gone : Publisher (List Message)
gone = record { publish = λ m p. (throws (runtime_error "kafka produce: down"), p) }

abbrev relaying : Host (World State (List Message)) (List Char) (List ℕ)
relaying = record { repo = world; telemetry = host.telemetry; spans = host.spans }

relay_thread-Ends_example :
    let (r, h') =
      relay_thread model what
        (outbox_repo server nothing_locked)
        gone
        clock
        (pos 100)
        (noon ∷ noon ∷ [])
        relaying in
    Ends model what (outbox_repo server nothing_locked) gone clock (pos 100) relaying 2 r h'
relay_thread-Ends_example =
    relay_thread-Ends model what (outbox_repo server nothing_locked) gone clock (pos 100)
      (noon ∷ noon ∷ []) relaying

-- Both passes throw.
two_lines : failed_passes (outbox_repo server nothing_locked) gone clock (pos 100) 2 world ≡ 2
unfolding drain_once fetch_pending mark_failed text_dec ◌+ℤ◌
two_lines = refl
