-- ===== src/Database/History.antt =====
-- Histories of calls on the database, which the mutex puts in a row.
use choreography_saga_demo.Base.{
  ℕ, ◌+◌, String, ◌≡◌, refl, inl, inr, true, List, [], ◌∷◌, some, arith, All, Option-cases,
}
use choreography_saga_demo.Base.Int.{ℤ, pos, ◌≤ℤ◌}
use choreography_saga_demo.Repository.{ReserveOutcome, ReleaseOutcome, EventBuilder}
use choreography_saga_demo.Database.Tables.{Postgres, Reservation, ProcessedMessage, State}
use choreography_saga_demo.Database.Sql.{is_processed, find_saga, set_released, marker}
use choreography_saga_demo.Database.Conservation.{units, reserve-units, release-units}
use choreography_saga_demo.Database.Ledger.{IsValid}
use choreography_saga_demo.Database.Validity.{RepeatsOrNew, reserve-IsValid, release-IsValid}
use choreography_saga_demo.Database.ReserveSteps.{ReserveStep, reserve_steps}
use choreography_saga_demo.Database.ReleaseSteps.{ReleaseStep, release_steps}
use choreography_saga_demo.Database.{
  reserve, release, mark_published, mark_failed, consumer_reserve,
}

-- The calls that write, and the passing of time.
pub data Call : Type 0 where
  reserves : String → String → String → ℤ → EventBuilder ReserveOutcome → Call
  releases : String → String → String → String → EventBuilder ReleaseOutcome → Call
  publishes : String → Call
  attempts : String → Call
  waits : ℕ → Call

unfoldable pub step : Postgres → State → Call → State
step pg d (reserves saga key sku q build) = (reserve pg saga key sku q build d).1
step pg d (releases saga id key consumer build) = (release pg saga id key consumer build d).1
step pg d (publishes id) = (mark_published pg id d).1
step pg d (attempts id) = (mark_failed pg id d).1
step pg d (waits n) = record d { now = d.now + n }

unfoldable pub run : Postgres → State → List Call → State
unfolding step
run pg d [] = d
run pg d (c ∷ cs) = run pg (step pg d c) cs

step-units : (pg : Postgres) (d : State) (c : Call) → units (step pg d c).stock ≡ units d.stock
unfolding step mark_published mark_failed
step-units pg d (reserves saga key sku q build) = reserve-units pg saga key sku q build d
step-units pg d (releases saga id key consumer build) =
    release-units pg saga id key consumer build d
step-units pg d (publishes id) = ground arith
step-units pg d (attempts id) = ground arith
step-units pg d (waits n) = refl

-- No history of calls changes how many units of a SKU there are, available and reserved together.
pub run-units :
    (pg : Postgres) (d : State) (cs : List Call) → units (run pg d cs).stock ≡ units d.stock
unfolding run
run-units pg d [] = refl
run-units pg d (c ∷ cs) = cc (run-units pg (step pg d c) cs, step-units pg d c)

-- `key_of` is the idempotency key under which a saga reserves.
module _ (pg : Postgres) (key_of : String → String) where
  -- The key of every saga with a reservation has been processed.
  abbrev Keyed : List Reservation → List ProcessedMessage → Type 0
  Keyed rs ms = All (λ r. is_processed (key_of r.saga_id) consumer_reserve ms ≡ true) rs

  -- A reservation is for zero or more units, under the key of its saga.
  abbrev pub Disciplined : Call → Type 0
  Disciplined (reserves saga key sku q build) =
      (pos 0 ≤ℤ q) × ((u : String) → pg.uuid_cast saga ≡ some u → key ≡ key_of u)
  Disciplined _ = Unit {0}

  Keyed-marker :
      (key consumer : String) (rs : List Reservation) (ms : List ProcessedMessage)
      → Keyed rs ms
      → Keyed rs (marker key consumer ∷ ms)
  Keyed-marker key consumer [] ms h = tt
  Keyed-marker key consumer (r ∷ rs) ms h = ground (arith, Keyed-marker key consumer rs ms h.1)

  Keyed-set_released :
      (u : String) (rs : List Reservation) (ms : List ProcessedMessage)
      → Keyed rs ms
      → Keyed (set_released u rs) ms
  Keyed-set_released u [] ms h = tt
  Keyed-set_released u (r ∷ rs) ms h = ground (arith, Keyed-set_released u rs ms h.1)

  Keyed-find_saga :
      (u : String) (rs : List Reservation) (ms : List ProcessedMessage) (old : Reservation)
      → Keyed rs ms
      → find_saga u rs ≡ some old
      → is_processed (key_of u) consumer_reserve ms ≡ true
  Keyed-find_saga u [] ms old h e = cc
  Keyed-find_saga u (r ∷ rs) ms old h e = ground (arith, Keyed-find_saga u rs ms old h.1)

  marker_self :
      (key consumer : String) (ms : List ProcessedMessage)
      → is_processed key consumer (marker key consumer ∷ ms) ≡ true
  marker_self key consumer ms = ground arith

  module _ (saga key sku : String) (q : ℤ) (build : EventBuilder ReserveOutcome) (d : State)
      (known : (u : String) → pg.uuid_cast saga ≡ some u → key ≡ key_of u)
      (keyed : Keyed d.reservations d.processed_messages) where
    pub repeats_or_new : RepeatsOrNew pg saga key d
    repeats_or_new = elim (Option-cases (pg.uuid_cast saga)) [
      | inl bad ↦ inr (λ u e. cc)
      | inr (u, e) ↦ elim (Option-cases (find_saga u d.reservations)) [
        | inl fresh ↦ inr (λ w x. ground arith)
        | inr (old, found) ↦
            inl (
              rw (known u e)
                (Keyed-find_saga u d.reservations d.processed_messages old keyed found))
      ]
    ]

    ReserveStep-Keyed :
        {r : _} {d' : State}
        → ReserveStep pg saga key sku q build d r d'
        → Keyed d'.reservations d'.processed_messages
    ReserveStep-Keyed (ReserveStep.failed e x y) = rw y keyed
    ReserveStep-Keyed (ReserveStep.repeated u a b c y) = rw y keyed
    ReserveStep-Keyed (ReserveStep.refused ob p a b c e x y) =
        rw y (Keyed-marker key consumer_reserve d.reservations d.processed_messages keyed)
    ReserveStep-Keyed (ReserveStep.accepted u ob p a b c e f g x y) = rw y (
      ground (arith, known u c, marker_self key consumer_reserve d.processed_messages),
      Keyed-marker key consumer_reserve d.reservations d.processed_messages keyed,
    )
    ReserveStep-Keyed (ReserveStep.accepted_again u old ob p a b c e f g x y) =
        rw y (Keyed-marker key consumer_reserve d.reservations d.processed_messages keyed)

  module _ (saga id key consumer : String) (build : EventBuilder ReleaseOutcome) (d : State)
      (keyed : Keyed d.reservations d.processed_messages) where
    ReleaseStep-Keyed :
        {r : _} {d' : State}
        → ReleaseStep pg saga id key consumer build d r d'
        → Keyed d'.reservations d'.processed_messages
    ReleaseStep-Keyed (ReleaseStep.failed e x y) = rw y keyed
    ReleaseStep-Keyed (ReleaseStep.repeated a x y) = rw y keyed
    ReleaseStep-Keyed (ReleaseStep.nothing u a b c x y) =
        rw y (Keyed-marker key consumer d.reservations d.processed_messages keyed)
    ReleaseStep-Keyed (ReleaseStep.returned u old ob p a b c e f x y) = rw y (
        Keyed-set_released u d.reservations (marker key consumer ∷ d.processed_messages)
          (Keyed-marker key consumer d.reservations d.processed_messages keyed))

  abbrev pub IsKeyed : State → Type 0
  IsKeyed d = IsValid d × Keyed d.reservations d.processed_messages

  pub step-IsKeyed : (d : State) (c : Call) → Disciplined c → IsKeyed d → IsKeyed (step pg d c)
  unfolding step mark_published mark_failed
  step-IsKeyed d (reserves saga key sku q build) h v = (
    reserve-IsValid pg saga key sku q build d h.0 (repeats_or_new saga key sku q build d h.1 v.1)
        v.0,
    ReserveStep-Keyed saga key sku q build d h.1 v.1 (reserve_steps pg saga key sku q build d),
  )
  step-IsKeyed d (releases saga id key consumer build) h v = (
    release-IsValid pg saga id key consumer build d v.0,
    ReleaseStep-Keyed saga id key consumer build d v.1
        (release_steps pg saga id key consumer build d),
  )
  step-IsKeyed d (publishes id) h v = ground arith
  step-IsKeyed d (attempts id) h v = ground arith
  step-IsKeyed d (waits n) h v = ground arith

  run-IsKeyed :
      (d : State) (cs : List Call) → All Disciplined cs → IsKeyed d → IsKeyed (run pg d cs)
  unfolding run
  run-IsKeyed d [] h v = v
  run-IsKeyed d (c ∷ cs) h v = run-IsKeyed (step pg d c) cs h.1 (step-IsKeyed d c h.0 v)

  -- Over any history in which each saga reserves under its own one key, for zero or more units, and
  -- which begins with valid tables that have the key of every saga with a reservation processed, the
  -- tables stay valid: the reserved units of each stock row are those of the open reservations, no
  -- SKU and no saga has two rows, and no available count or reserved quantity is negative.
  pub run-IsValid :
      (d : State) (cs : List Call) → All Disciplined cs → IsKeyed d → IsValid (run pg d cs)
  run-IsValid d cs h v = (run-IsKeyed d cs h v).0
