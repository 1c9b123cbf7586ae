-- ===== src/Tests/System.antt =====
-- The service put together: requests, a message and rounds of the relay, one after another.
use choreography_saga_demo.Base.{ℕ, ◌≡◌, List, [], ◌∷◌, arith}
use Prim.Native.Char.{Char}
use choreography_saga_demo.Base.Int.{pos}
use choreography_saga_demo.Outbox.{Message}
use choreography_saga_demo.Relay.{World}
use choreography_saga_demo.Relay.Progress.{nothing_locked}
use choreography_saga_demo.Obs.Host.{Host}
use choreography_saga_demo.Grpc.{ReserveStockRequest, ReleaseStockRequest}
use choreography_saga_demo.App.{topic_order_cancelled}
use choreography_saga_demo.Database.Tables.{State}
use choreography_saga_demo.Database.Conservation.{units}
use choreography_saga_demo.Database.Ledger.{IsValid}
use choreography_saga_demo.System.{
  Happening, reserve_asked, release_asked, delivered, relayed, waited, run_system,
}
use choreography_saga_demo.System.Calls.{run_system-IsValid}
use choreography_saga_demo.Tests.Fixtures.{server, seed}
use choreography_saga_demo.Tests.JsonModel.{model}
use choreography_saga_demo.Tests.Passes.{broker, clock}
use choreography_saga_demo.Tests.Reservations.{own_key, seed-IsValid}
use choreography_saga_demo.Tests.Served.{draw, noon, host, traced, what}

-- A saga's key is its id here.
abbrev wanted : ReserveStockRequest
wanted = record { saga_id = "saga-1"; idempotency_key = "saga-1"; sku = "SKU-1"; quantity = pos 2 }

abbrev returned : ReleaseStockRequest
returned = record { saga_id = "saga-1"; reservation_id = ""; idempotency_key = "key-2" }

abbrev happenings : List Happening
happenings =
    reserve_asked draw noon 0 traced [] wanted
    ∷ relayed noon clock nothing_locked
    ∷ delivered draw noon 1 topic_order_cancelled "no JSON" "tp"
    ∷ waited 5
    ∷ release_asked draw noon 2 traced [] returned
    ∷ []

abbrev started : Host (World State (List Message)) (List Char) (List ℕ)
started = record {
  repo = record { repo = seed; publisher = []; lags = [] };
  telemetry = host.telemetry;
  spans = host.spans;
}

run_system-IsValid_example :
    let d : State = (run_system model what server broker (pos 100) happenings started).repo.repo in
    IsValid d × (units d.stock ≡ units seed.stock)
run_system-IsValid_example =
    run_system-IsValid model what server broker (pos 100) (λ s. s) happenings started
      ((omega arith, own_key "saga-1"), (tt, (tt, (tt, (tt, tt))))) (seed-IsValid, tt)
