-- ===== src/System.antt =====
-- The service as services/inventory/src/main.cpp puts it together, and what reaches it.
pub mod ByCalls
pub mod Calls
use choreography_saga_demo.Base.{ℕ, ◌+◌, String, Bool, List, [], ◌∷◌}
use choreography_saga_demo.Base.Int.{ℤ}
use choreography_saga_demo.Base.Outcome.{Error, Proc}
use choreography_saga_demo.Outbox.{Publisher}
use choreography_saga_demo.Json.{Json}
use choreography_saga_demo.Envelope.{Entropy}
use choreography_saga_demo.Obs.Host.{Host, Moment}
use choreography_saga_demo.App.Logs.{InventoryApp, inventory_app}
use choreography_saga_demo.Grpc.{Tracing, ReserveStockRequest, ReleaseStockRequest}
use choreography_saga_demo.Grpc.Handlers.{InventoryServiceImpl, inventory_service_impl}
use choreography_saga_demo.Process.Callback.{consume}
use choreography_saga_demo.Process.Rounds.{relay_round}
use choreography_saga_demo.Relay.{World}
use choreography_saga_demo.Database.Tables.{Postgres, State}
use choreography_saga_demo.Database.{repository, outbox_repo}

-- What happens to the service: a request with its metadata, a message that is handed to the consumer's
-- callback, a round of the relay with the rows that other sessions lock, and the passing of time. Each
-- of the first three draws random words, or reads the clock, and has a moment of its log line and a
-- variable `span`.
pub data Happening : Type 0 where
  reserve_asked :
      Entropy → Moment → ℕ → Tracing → List (String × String) → ReserveStockRequest → Happening
  release_asked :
      Entropy → Moment → ℕ → Tracing → List (String × String) → ReleaseStockRequest → Happening
  delivered : Entropy → Moment → ℕ → String → String → String → Happening
  relayed : Moment → (ℕ → ℕ) → (String → Bool) → Happening
  waited : ℕ → Happening

module _ {J P R : Type 0} (lib : Json J) (what : Error → String) (pg : Postgres)
    (publisher : Publisher P) (size : ℤ) where
  -- A handler works on the database, the telemetry and the spans.
  abbrev on_database :
      {A : Type 0} → Proc (Host State J R) A → Host (World State P) J R → Host (World State P) J R
  on_database m h =
      let (r, h') = m (record { repo = h.repo.repo; telemetry = h.telemetry; spans = h.spans }) in
      record {
        repo = record { repo = h'.repo; publisher = h.repo.publisher; lags = h.repo.lags };
        telemetry = h'.telemetry;
        spans = h'.spans;
      }

  -- `InventoryApp app(db);` and `InventoryServiceImpl service(app);`.
  abbrev app : InventoryApp State J R
  app = inventory_app lib (repository pg)

  abbrev service : InventoryServiceImpl State J R
  service = inventory_service_impl app

  unfoldable pub react : Happening → Host (World State P) J R → Host (World State P) J R
  react (reserve_asked entropy at v tracing md request) h =
      on_database (service.reserve_stock entropy at v tracing md request) h
  react (release_asked entropy at v tracing md request) h =
      on_database (service.release_stock entropy at v tracing md request) h
  react (delivered entropy at v topic value traceparent) h =
      on_database (consume lib app entropy at v topic value traceparent) h
  react (relayed at clock locked) h =
      (relay_round lib what (outbox_repo pg locked) publisher clock size at h).1
  react (waited n) h = record h {
    repo = record h.repo { repo = record h.repo.repo { now = h.repo.repo.now + n } };
  }

  unfoldable pub run_system : List Happening → Host (World State P) J R → Host (World State P) J R
  unfolding react
  run_system [] h = h
  run_system (e ∷ es) h = run_system es (react e h)
