-- ===== src/Database/Sticks.antt =====
-- A saga whose reservation was released, and that reserves again under another key.
use choreography_saga_demo.Base.{String, ◌≡◌, ◌≢◌, refl, false, List, [], ◌∷◌, none, some, arith}
use choreography_saga_demo.Base.Int.{ℤ, pos, ◌≤ℤ◌, int_laws, add-ne}
use choreography_saga_demo.Base.Outcome.{ok}
use choreography_saga_demo.Domain.{ReserveStatus}
use choreography_saga_demo.Repository.{ReserveOutcome, ReleaseOutcome, EventBuilder}
use choreography_saga_demo.Database.Tables.{Postgres, Stock, Reservation, State}
use choreography_saga_demo.Database.Sql.{
  is_processed, find_saga, find_reserved, find_stock, take_units, set_stock, set_released,
}
use choreography_saga_demo.Database.ReserveSteps
use choreography_saga_demo.Database.ReserveSteps.{ReserveStep, reserve_steps}
use choreography_saga_demo.Database.ReleaseSteps.{ReleaseStep, release_steps}
use choreography_saga_demo.Database.History.{
  Call, reserves, releases, publishes, attempts, waits, step, run,
}
use choreography_saga_demo.Database.{
  reserve, release, mark_published, mark_failed, consumer_reserve,
}

take_units-changes :
    (q : ℤ) (sku : String) (ss : List Stock) (s : Stock)
    → pos 1 ≤ℤ q
    → find_stock sku ss ≡ some s
    → set_stock (take_units q) sku ss ≢ ss
unfolding take_units
take_units-changes q sku [] s p e = cc
take_units-changes q sku (x ∷ ss) s p e = grind (
  int_laws,
  add-ne x.reserved q,
  λ (f : find_stock sku ss ≡ some s). take_units-changes q sku ss s p f,
)

-- The saga has a reservation, and no open one.
abbrev IsClosed : String → List Reservation → Type 0
IsClosed u rs = (find_saga u rs ≢ none) × (find_reserved u rs ≡ none)

IsClosed-set_released :
    (u w : String) (rs : List Reservation) → IsClosed u rs → IsClosed u (set_released w rs)
IsClosed-set_released u w rs h = (has rs h.0, closed rs h.1)
  where
    has : (rs : List Reservation) → find_saga u rs ≢ none → find_saga u (set_released w rs) ≢ none
    has [] n = n
    has (r ∷ rs) n = ground (arith, has rs)

    closed :
        (rs : List Reservation)
        → find_reserved u rs ≡ none
        → find_reserved u (set_released w rs) ≡ none
    closed [] e = e
    closed (r ∷ rs) e = ground (arith, closed rs)

module _ (pg : Postgres) (u : String) where
  ReserveStep-IsClosed :
      (saga key sku : String) (q : ℤ) (build : EventBuilder ReserveOutcome) (d : State) {r : _}
      {d' : State}
      → ReserveStep pg saga key sku q build d r d'
      → IsClosed u d.reservations
      → IsClosed u d'.reservations
  ReserveStep-IsClosed saga key sku q build d (ReserveStep.failed e x y) h = rw y h
  ReserveStep-IsClosed saga key sku q build d (ReserveStep.repeated w a k x y) h = rw y h
  ReserveStep-IsClosed saga key sku q build d (ReserveStep.refused ob z a k e i x y) h = rw y h
  ReserveStep-IsClosed saga key sku q build d (ReserveStep.accepted w ob z a k e i j l x y) h =
      rw y (ground (arith, h), ground (arith, h))
  ReserveStep-IsClosed saga key sku q build d
        (ReserveStep.accepted_again w old ob z a k e i j l x y) h =
      rw y h

  ReleaseStep-IsClosed :
      (saga id key consumer : String) (build : EventBuilder ReleaseOutcome) (d : State) {r : _}
      {d' : State}
      → ReleaseStep pg saga id key consumer build d r d'
      → IsClosed u d.reservations
      → IsClosed u d'.reservations
  ReleaseStep-IsClosed saga id key consumer build d (ReleaseStep.failed e x y) h = rw y h
  ReleaseStep-IsClosed saga id key consumer build d (ReleaseStep.repeated a x y) h = rw y h
  ReleaseStep-IsClosed saga id key consumer build d (ReleaseStep.nothing w a b k x y) h = rw y h
  ReleaseStep-IsClosed saga id key consumer build d (ReleaseStep.returned w old ob p a b k e f x y)
        h =
      rw y (IsClosed-set_released u w d.reservations h)

  step-IsClosed :
      (d : State) (c : Call) → IsClosed u d.reservations → IsClosed u (step pg d c).reservations
  unfolding step mark_published mark_failed
  step-IsClosed d (reserves saga key sku q build) h =
      ReserveStep-IsClosed saga key sku q build d (reserve_steps pg saga key sku q build d) h
  step-IsClosed d (releases saga id key consumer build) h =
      ReleaseStep-IsClosed saga id key consumer build d
        (release_steps pg saga id key consumer build d) h
  step-IsClosed d (publishes id) h = ground (arith, h)
  step-IsClosed d (attempts id) h = ground (arith, h)
  step-IsClosed d (waits n) h = h

  run-IsClosed :
      (d : State) (cs : List Call)
      → IsClosed u d.reservations
      → IsClosed u (run pg d cs).reservations
  unfolding run
  run-IsClosed d [] h = h
  run-IsClosed d (c ∷ cs) h = run-IsClosed (step pg d c) cs (step-IsClosed d c h)

  ReleaseStep-stock :
      (saga id key consumer : String) (build : EventBuilder ReleaseOutcome) (d : State) {r : _}
      {d' : State}
      → ReleaseStep pg saga id key consumer build d r d'
      → pg.uuid_cast saga ≡ some u
      → IsClosed u d.reservations
      → d'.stock ≡ d.stock
  ReleaseStep-stock saga id key consumer build d (ReleaseStep.failed e x y) c h = rw y
  ReleaseStep-stock saga id key consumer build d (ReleaseStep.repeated a x y) c h = rw y
  ReleaseStep-stock saga id key consumer build d (ReleaseStep.nothing w a b k x y) c h = rw y
  ReleaseStep-stock saga id key consumer build d (ReleaseStep.returned w old ob p a b k e f x y) c
        h =
      absurd (ground (arith, h.1))

module _ (pg : Postgres) (saga key sku u : String) (q : ℤ) (build : EventBuilder ReserveOutcome)
    (d : State) (old : Reservation) (s : Stock) where
  ReserveStep-takes :
      {r : _} {d' : State}
      → ReserveStep pg saga key sku q build d r d'
      → (o : ReserveOutcome) → r ≡ ok o
      → o.status ≡ ReserveStatus.reserved
      → is_processed key consumer_reserve d.processed_messages ≡ false
      → d'.stock ≡ set_stock (take_units q) sku d.stock
  ReserveStep-takes (ReserveStep.failed e x y) o h st new = cc
  ReserveStep-takes (ReserveStep.repeated w a k x y) o h st new = cc
  ReserveStep-takes (ReserveStep.refused ob z a k e i x y) o h st new = absurd (ground arith)
  ReserveStep-takes (ReserveStep.accepted w ob z a k e i j l x y) o h st new = rw y refl
  ReserveStep-takes (ReserveStep.accepted_again w o' ob z a k e i j l x y) o h st new = rw y refl

  -- When a saga that has a reservation, and no open one, reserves one unit or more of a SKU that
  -- has a stock row, under a key that is not processed yet, and is told that it succeeded, the
  -- units are taken from that row, so that the stock has changed; and after that, whatever calls of
  -- the database come between, a release of the saga, under whatever key and consumer, leaves the
  -- stock as it finds it.
  pub reserve_after_release_sticks :
      (o : ReserveOutcome) (d' : State)
      → pg.uuid_cast saga ≡ some u
      → find_saga u d.reservations ≡ some old
      → find_reserved u d.reservations ≡ none
      → is_processed key consumer_reserve d.processed_messages ≡ false
      → find_stock sku d.stock ≡ some s
      → pos 1 ≤ℤ q
      → o.status ≡ ReserveStatus.reserved
      → reserve pg saga key sku q build d ≡ (ok o, d')
      → (between : List Call) (id key' consumer : String) (build' : EventBuilder ReleaseOutcome)
      → let e : State = run pg d' between in
        (d'.stock ≡ set_stock (take_units q) sku d.stock)
        × (d'.stock ≢ d.stock)
        × ((release pg saga id key' consumer build' e).1.stock ≡ e.stock)
  reserve_after_release_sticks o d' cast found closed new shelf one st h between id key' consumer
        build' =
      let e : State = run pg d' between in
      let taken : d'.stock ≡ set_stock (take_units q) sku d.stock =
        ReserveStep-takes (ReserveSteps.step_of pg saga key sku q build d h) o refl st new in
      let after : IsClosed u d'.reservations =
        ReserveStep-IsClosed pg u saga key sku q build d
          (ReserveSteps.step_of pg saga key sku q build d h) (ground arith, closed) in
      (
        taken,
        rw taken (take_units-changes q sku d.stock s one shelf),
        ReleaseStep-stock pg u saga id key' consumer build' e
            (release_steps pg saga id key' consumer build' e) cast
            (run-IsClosed pg u d' between after),
      )
