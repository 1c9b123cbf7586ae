-- ===== src/Database/Leak.antt =====
-- A saga that has a reservation and reserves again under another key.
use choreography_saga_demo.Base.{String, ◌≡◌, refl, false, List, [], ◌∷◌, some, arith}
use choreography_saga_demo.Base.Int.{ℤ, pos, ◌≤ℤ◌, int_laws, add-ne}
use choreography_saga_demo.Base.Outcome.{ok}
use choreography_saga_demo.Domain.{ReserveStatus}
use choreography_saga_demo.Repository.{ReserveOutcome, EventBuilder}
use choreography_saga_demo.Database.Tables.{Postgres, Stock, Reservation, State}
use choreography_saga_demo.Database.Sql.{is_processed, find_saga, find_stock, take_units, set_stock}
use choreography_saga_demo.Database.Ledger.{IsBalanced}
use choreography_saga_demo.Database.ReserveSteps
use choreography_saga_demo.Database.ReserveSteps.{ReserveStep, reserve_steps}
use choreography_saga_demo.Database.{reserve, consumer_reserve}

take_units-unbalanced :
    (q : ℤ) (sku : String) (rs : List Reservation) (ss : List Stock) (s : Stock)
    → pos 1 ≤ℤ q
    → find_stock sku ss ≡ some s
    → IsBalanced rs ss
    → ¬ IsBalanced rs (set_stock (take_units q) sku ss)
unfolding take_units
take_units-unbalanced q sku rs [] s p e b n = cc
take_units-unbalanced q sku rs (x ∷ ss) s p e b n = grind (
  int_laws,
  add-ne x.reserved q,
  λ (f : find_stock sku ss ≡ some s). take_units-unbalanced q sku rs ss s p f b.1,
)

module _ (pg : Postgres) (saga key sku : String) (q : ℤ) (build : EventBuilder ReserveOutcome)
    (d : State) (u : String) (old : Reservation) (s : Stock) where
  ReserveStep-leak :
      {r : _} {d' : State}
      → ReserveStep pg saga key sku q build d r d'
      → (o : ReserveOutcome) → r ≡ ok o
      → o.status ≡ ReserveStatus.reserved
      → is_processed key consumer_reserve d.processed_messages ≡ false
      → pg.uuid_cast saga ≡ some u
      → find_saga u d.reservations ≡ some old
      → find_stock sku d.stock ≡ some s
      → pos 1 ≤ℤ q
      → IsBalanced d.reservations d.stock
      → (d'.reservations ≡ d.reservations) × (¬ IsBalanced d'.reservations d'.stock)
  ReserveStep-leak (ReserveStep.failed e x y) o h st new c f g p b = cc
  ReserveStep-leak (ReserveStep.repeated w a k x y) o h st new c f g p b = cc
  ReserveStep-leak (ReserveStep.refused ob z a k e i x y) o h st new c f g p b =
      absurd (ground arith)
  ReserveStep-leak (ReserveStep.accepted w ob z a k e i j l x y) o h st new c f g p b =
      absurd (ground arith)
  ReserveStep-leak (ReserveStep.accepted_again w old' ob z a k e i j l x y) o h st new c f g p b =
      rw y (refl, take_units-unbalanced q sku d.reservations d.stock s p g b)

  -- When the reserved counts equal the open reservations, and a saga that has a reservation reserves
  -- one unit or more of a SKU in stock under a new key and is told that it succeeded, then the
  -- reservations stay as they are and the reserved counts no longer equal them.
  pub reserve_again_leaks :
      (o : ReserveOutcome) (d' : State)
      → is_processed key consumer_reserve d.processed_messages ≡ false
      → pg.uuid_cast saga ≡ some u
      → find_saga u d.reservations ≡ some old
      → find_stock sku d.stock ≡ some s
      → pos 1 ≤ℤ q
      → IsBalanced d.reservations d.stock
      → o.status ≡ ReserveStatus.reserved
      → reserve pg saga key sku q build d ≡ (ok o, d')
      → (d'.reservations ≡ d.reservations) × (¬ IsBalanced d'.reservations d'.stock)
  reserve_again_leaks o d' new c f g p b st h =
      ReserveStep-leak (ReserveSteps.step_of pg saga key sku q build d h) o refl st new c f g p b
