-- ===== src/Database/Connection/Marks.antt =====
-- What a call of Database does to the tables, as far as it is about its key and consumer.
use choreography_saga_demo.Base.{String, ◌≡◌, refl, Bool, true, false, ◌∷◌, arith, All}
use choreography_saga_demo.Base.Int.{ℤ}
use choreography_saga_demo.Repository.{ReserveOutcome, ReleaseOutcome, EventBuilder}
use choreography_saga_demo.Database.Tables.{Postgres, ProcessedMessage, State}
use choreography_saga_demo.Database.Sql.{is_processed, marker}
use choreography_saga_demo.Database.Refines.{succeeded}
use choreography_saga_demo.Database.ReserveSteps.{ReserveStep, reserve_steps}
use choreography_saga_demo.Database.ReleaseSteps.{ReleaseStep, release_steps}
use choreography_saga_demo.Database.History.{
  Call, reserves, releases, publishes, attempts, waits, step,
}
use choreography_saga_demo.Database.Orders.{returns}
use choreography_saga_demo.Database.{mark_published, mark_failed, consumer_reserve}
use choreography_saga_demo.Database.Connection.Requests.{request, repeats, Among}

abbrev done : String → String → State → Bool
done key consumer d = is_processed key consumer d.processed_messages

-- From `d` to `d'` by a request, with a return or a throw. The clauses are about keys processed before,
-- about throws, and about what is processed afterwards.
record Took (key consumer : String) (d : State) (returned : Bool) (d' : State) : Type 0 where
  idle : done key consumer d ≡ true → d' ≡ d
  thrown : returned ≡ false → d' ≡ d
  marked : returned ≡ true → done key consumer d' ≡ true
  kept : (k c : String) → done k c d ≡ true → done k c d' ≡ true

-- A step that does nothing, and one that marks a new key.
Took-same :
    {key consumer : String} {d d' : State} {returned : Bool}
    → d' ≡ d
    → (returned ≡ true → done key consumer d ≡ true)
    → Took key consumer d returned d'
Took-same y m = record {
  idle = λ h. y;
  thrown = λ h. y;
  marked = λ h. rw y (m h);
  kept = λ k c h. rw y h;
}

Took-new :
    {key consumer : String} {d d' : State} {returned : Bool}
    → done key consumer d ≡ false
    → returned ≡ true
    → d'.processed_messages ≡ marker key consumer ∷ d.processed_messages
    → Took key consumer d returned d'
Took-new a x y = record {
  idle = λ h. cc;
  thrown = λ h. cc;
  marked = λ h. rw y (ground arith);
  kept = λ k c h. rw y (ground arith);
}

ReserveStep-Took :
    (pg : Postgres) (saga key sku : String) (q : ℤ) (build : EventBuilder ReserveOutcome)
    (d : State) {r : _} {d' : State}
    → ReserveStep pg saga key sku q build d r d'
    → Took key consumer_reserve d (succeeded r) d'
ReserveStep-Took pg saga key sku q build d (ReserveStep.failed e x y) =
    Took-same y (λ h. ground (arith, x))
ReserveStep-Took pg saga key sku q build d (ReserveStep.repeated u a b c y) = Took-same y (λ h. a)
ReserveStep-Took pg saga key sku q build d (ReserveStep.refused ob p a b c e x y) =
    Took-new a (rw x refl) (rw y refl)
ReserveStep-Took pg saga key sku q build d (ReserveStep.accepted u ob p a b c e f g x y) =
    Took-new a (rw x refl) (rw y refl)
ReserveStep-Took pg saga key sku q build d (ReserveStep.accepted_again u old ob p a b c e f g x y) =
    Took-new a (rw x refl) (rw y refl)

ReleaseStep-Took :
    (pg : Postgres) (saga id key consumer : String) (build : EventBuilder ReleaseOutcome)
    (d : State) {r : _} {d' : State}
    → ReleaseStep pg saga id key consumer build d r d'
    → Took key consumer d (succeeded r) d'
ReleaseStep-Took pg saga id key consumer build d (ReleaseStep.failed e x y) =
    Took-same y (λ h. ground (arith, x))
ReleaseStep-Took pg saga id key consumer build d (ReleaseStep.repeated a x y) = Took-same y (λ h. a)
ReleaseStep-Took pg saga id key consumer build d (ReleaseStep.nothing u a b c x y) =
    Took-new a (rw x refl) (rw y refl)
ReleaseStep-Took pg saga id key consumer build d (ReleaseStep.returned u old ob p a b c f g x y) =
    Took-new a (rw x refl) (rw y refl)

module _ (pg : Postgres) (d : State) where
  pub step-repeated : (c : Call) → repeats d.processed_messages c ≡ true → step pg d c ≡ d
  unfolding step
  step-repeated (reserves saga key sku q build) h =
      (ReserveStep-Took pg saga key sku q build d (reserve_steps pg saga key sku q build d)).idle h
  step-repeated (releases saga id key consumer build) h =
      (ReleaseStep-Took pg saga id key consumer build d
          (release_steps pg saga id key consumer build d)).idle
        h
  step-repeated (publishes id) h = cc
  step-repeated (attempts id) h = cc
  step-repeated (waits n) h = cc

  pub step-thrown : (c : Call) → returns pg d c ≡ false → step pg d c ≡ d
  unfolding step returns mark_published mark_failed
  step-thrown (reserves saga key sku q build) h =
      (ReserveStep-Took pg saga key sku q build d (reserve_steps pg saga key sku q build d)).thrown
        h
  step-thrown (releases saga id key consumer build) h =
      (ReleaseStep-Took pg saga id key consumer build d
          (release_steps pg saga id key consumer build d)).thrown
        h
  step-thrown (publishes id) h = ground arith
  step-thrown (attempts id) h = ground arith
  step-thrown (waits n) h = cc

  pub step-marked :
      (c : Call) → returns pg d c ≡ true → All (Among (step pg d c).processed_messages) (request c)
  unfolding step returns
  step-marked (reserves saga key sku q build) h = (
    (ReserveStep-Took pg saga key sku q build d (reserve_steps pg saga key sku q build d)).marked h,
    tt,
  )
  step-marked (releases saga id key consumer build) h = (
    (ReleaseStep-Took pg saga id key consumer build d
          (release_steps pg saga id key consumer build d)).marked
        h,
    tt,
  )
  step-marked (publishes id) h = tt
  step-marked (attempts id) h = tt
  step-marked (waits n) h = tt

  pub step-Among :
      (c : Call) (m : ProcessedMessage)
      → Among d.processed_messages m
      → Among (step pg d c).processed_messages m
  unfolding step mark_published mark_failed
  step-Among (reserves saga key sku q build) m h =
      (ReserveStep-Took pg saga key sku q build d (reserve_steps pg saga key sku q build d)).kept
        m.idempotency_key m.consumer h
  step-Among (releases saga id key consumer build) m h =
      (ReleaseStep-Took pg saga id key consumer build d
          (release_steps pg saga id key consumer build d)).kept
        m.idempotency_key m.consumer h
  step-Among (publishes id) m h = ground arith
  step-Among (attempts id) m h = ground arith
  step-Among (waits n) m h = h
