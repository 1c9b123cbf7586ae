-- ===== src/Tests.antt =====
-- Concrete runs of the service, and the theorems at concrete inputs.
mod Fixtures
mod JsonModel
mod Connection
mod Reservations
mod Passes
mod Consumer
mod Settings
mod Calls
mod Lifecycle
mod Spans
mod Threads
mod Clock
mod Log
mod Delivery
mod Served
mod Saga
mod System
