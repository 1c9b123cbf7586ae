-- ===== src/Database/Retry.antt =====
-- A call that is made again under its idempotency key.
use choreography_saga_demo.Base.{
  String, ◌≡◌, refl, ◌≢◌, inl, inr, true, false, List, [], ◌∷◌, none, some, arith,
}
use choreography_saga_demo.Base.Int.{ℤ}
use choreography_saga_demo.Base.Outcome.{ok}
use choreography_saga_demo.Repository.{ReserveOutcome, ReleaseOutcome, EventBuilder}
use choreography_saga_demo.Database.Tables.{
  Postgres, PostgresLaws, Reservation, ProcessedMessage, State,
}
use choreography_saga_demo.Database.Sql.{is_processed, find_saga, find_reserved, marker}
use choreography_saga_demo.Database.Validity.{RepeatsOrNew}
use choreography_saga_demo.Database.ReserveSteps
use choreography_saga_demo.Database.ReserveSteps.{
  ReserveStep, repeated_answer, after_refused, after_accepted,
}
use choreography_saga_demo.Database.ReleaseSteps
use choreography_saga_demo.Database.ReleaseSteps.{ReleaseStep}
use choreography_saga_demo.Database.{reserve, release, consumer_reserve}

is_processed-marker :
    (key consumer : String) (ms : List ProcessedMessage)
    → is_processed key consumer (marker key consumer ∷ ms) ≡ true
is_processed-marker key consumer ms = ground arith

find_reserved-missing :
    (u : String) (rs : List Reservation) → find_saga u rs ≡ none → find_reserved u rs ≡ none
find_reserved-missing u [] h = refl
find_reserved-missing u (r ∷ rs) h = ground (arith, find_reserved-missing u rs)

-- Under a processed key the call reads the saga's reservation, and writes nothing.
reserve-processed :
    (pg : Postgres) (saga key sku u : String) (q : ℤ) (build : EventBuilder ReserveOutcome)
    (d : State)
    → is_processed key consumer_reserve d.processed_messages ≡ true
    → pg.uuid_cast saga ≡ some u
    → reserve pg saga key sku q build d ≡ (ok (repeated_answer pg saga key sku q build d u), d)
unfolding reserve
reserve-processed pg saga key sku u q build d h c = ground arith

module _ (pg : Postgres) (laws : PostgresLaws pg) (saga key sku u : String) (q : ℤ)
    (build : EventBuilder ReserveOutcome) (d : State) (cast : pg.uuid_cast saga ≡ some u)
    (new : RepeatsOrNew pg saga key d) where
  random_not_empty : pg.random_uuid d.drawn ≢ ""
  random_not_empty =
      laws.uuid_not_empty (pg.random_uuid d.drawn) (pg.random_uuid d.drawn)
        (laws.random_valid d.drawn)

  new_saga :
      is_processed key consumer_reserve d.processed_messages ≡ false
      → find_saga u d.reservations ≡ none
  new_saga a = elim new [ inl again ↦ cc | inr fresh ↦ fresh u cast ]

  ReserveStep-retry :
      (sku' : String) (q' : ℤ) (build' : EventBuilder ReserveOutcome) {r : _} {d' : State}
      → ReserveStep pg saga key sku q build d r d'
      → (o : ReserveOutcome) → r ≡ ok o
      → reserve pg saga key sku' q' build' d' ≡ (ok (record o { duplicate = true }), d')
  ReserveStep-retry sku' q' build' (ReserveStep.failed e x y) o h = cc
  ReserveStep-retry sku' q' build' (ReserveStep.repeated w a b c y) o h =
      rw y (ground (arith, reserve-processed pg saga key sku' u q' build' d a cast))
  ReserveStep-retry sku' q' build' (ReserveStep.refused ob p a b c e x y) o h = rw y (
      ground (
        arith,
        new_saga a,
        find_reserved-missing u d.reservations,
        is_processed-marker key consumer_reserve d.processed_messages,
        reserve-processed pg saga key sku' u q' build'
            (after_refused pg saga key sku q build d ob p),
      ))
  ReserveStep-retry sku' q' build' (ReserveStep.accepted w ob p a b c e f g x y) o h = rw y (
      ground (
        arith,
        random_not_empty,
        is_processed-marker key consumer_reserve d.processed_messages,
        reserve-processed pg saga key sku' u q' build'
            (after_accepted pg saga key sku q build d w ob p),
      ))
  ReserveStep-retry sku' q' build' (ReserveStep.accepted_again w old ob p a b c e f g x y) o h =
      absurd (ground (arith, new_saga a))

  -- The saga id is a text that PostgreSQL reads as a UUID, and the key is processed already or the
  -- saga has no reservation yet. Then once a call of reserve has returned, a call with the same
  -- saga and key returns the same status and reservation id, marked as a duplicate, and changes
  -- nothing, whatever SKU, quantity and event builder it is given.
  pub reserve_retry :
      (sku' : String) (q' : ℤ) (build' : EventBuilder ReserveOutcome) (o : ReserveOutcome)
      (d' : State)
      → reserve pg saga key sku q build d ≡ (ok o, d')
      → reserve pg saga key sku' q' build' d' ≡ (ok (record o { duplicate = true }), d')
  reserve_retry sku' q' build' o d' h =
      ReserveStep-retry sku' q' build' (ReserveSteps.step_of pg saga key sku q build d h) o refl

ReleaseStep-retry :
    (pg : Postgres) (saga id key consumer : String) (build : EventBuilder ReleaseOutcome)
    (d : State) (saga' id' : String) (build' : EventBuilder ReleaseOutcome) {r : _} {d' : State}
    → ReleaseStep pg saga id key consumer build d r d'
    → (o : ReleaseOutcome) → r ≡ ok o
    → release pg saga' id' key consumer build' d'
      ≡ (ok (record { released = false; duplicate = true }), d')
unfolding release
ReleaseStep-retry pg saga id key consumer build d saga' id' build' (ReleaseStep.failed e x y) o h =
    cc
ReleaseStep-retry pg saga id key consumer build d saga' id' build' (ReleaseStep.repeated a x y) o
      h =
    rw y (ground arith)
ReleaseStep-retry pg saga id key consumer build d saga' id' build' (ReleaseStep.nothing u a b c x y)
      o h =
    rw y (ground arith)
ReleaseStep-retry pg saga id key consumer build d saga' id' build'
      (ReleaseStep.returned u old ob p a b c e f x y) o h =
    rw y (ground arith)

-- Once a release has returned, a call under its key and consumer releases nothing, says that it is a
-- duplicate, and changes nothing, whatever saga it names.
pub release_retry :
    (pg : Postgres) (saga id key consumer : String) (build : EventBuilder ReleaseOutcome)
    (d : State) (saga' id' : String) (build' : EventBuilder ReleaseOutcome) (o : ReleaseOutcome)
    (d' : State)
    → release pg saga id key consumer build d ≡ (ok o, d')
    → release pg saga' id' key consumer build' d'
      ≡ (ok (record { released = false; duplicate = true }), d')
release_retry pg saga id key consumer build d saga' id' build' o d' h =
    ReleaseStep-retry pg saga id key consumer build d saga' id' build'
      (ReleaseSteps.step_of pg saga id key consumer build d h) o refl
