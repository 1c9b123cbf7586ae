-- ===== src/Repository.antt =====
-- services/inventory/include/inventory/repository.hpp: the persistence surface of the application.
use choreography_saga_demo.Base.{String, Bool}
use choreography_saga_demo.Base.Int.{ℤ}
use choreography_saga_demo.Base.Outcome.{Outcome, Proc}
use choreography_saga_demo.Domain.{ReserveStatus}
use choreography_saga_demo.Outbox.{Insert}

pub record ReserveOutcome : Type 0 where
  pub status : ReserveStatus
  pub reservation_id : String
  pub duplicate : Bool

pub record ReleaseOutcome : Type 0 where
  pub released : Bool
  pub duplicate : Bool

-- A builder may throw, as any std::function may.
abbrev pub EventBuilder : Type 0 → Type 0
EventBuilder O = O → Outcome Insert

-- class Repository, over the state `S` of its implementation. The arguments stand in the order of
-- the C++ methods.
pub record Repository (S : Type 0) : Type 0 where
  pub reserve : String → String → String → ℤ → EventBuilder ReserveOutcome → Proc S ReserveOutcome
  pub release :
      String → String → String → String → EventBuilder ReleaseOutcome → Proc S ReleaseOutcome
