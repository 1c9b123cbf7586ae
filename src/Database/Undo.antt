-- ===== src/Database/Undo.antt =====
-- A reservation and then a release of the same saga.
use choreography_saga_demo.Base.{
  suc, ◌++◌, String, ◌≡◌, refl, ◌≢◌, true, false, List, [], ◌∷◌, none, some, arith, All,
}
use choreography_saga_demo.Base.Int.{ℤ, InRange, add-sub, sub-add}
use choreography_saga_demo.Base.Outcome.{ok}
use choreography_saga_demo.Domain.{ReserveStatus}
use choreography_saga_demo.Outbox.{Insert}
use choreography_saga_demo.Repository.{ReserveOutcome, ReleaseOutcome, EventBuilder}
use choreography_saga_demo.Database.ReleaseSteps.{set_released-closed}
use choreography_saga_demo.Database.Tables.{Postgres, Stock, Reservation, State}
use choreography_saga_demo.Database.Sql.{
  is_processed, find_saga, find_reserved, take_units, return_units, set_stock, stock_fits,
  set_released, marker,
}
use choreography_saga_demo.Database.OutboxSql.{new_row}
use choreography_saga_demo.Database.ReserveSteps
use choreography_saga_demo.Database.ReserveSteps.{ReserveStep, new_reservation, after_accepted}
use choreography_saga_demo.Database.{reserve, release, consumer_reserve}

-- The stock counts are values of their INT columns.
abbrev pub StockInRange : List Stock → Type 0
StockInRange = All λ s. InRange s.available × InRange s.reserved

pub return-take :
    (q : ℤ) (sku : String) (ss : List Stock)
    → set_stock (return_units q) sku (set_stock (take_units q) sku ss) ≡ ss
unfolding take_units return_units
return-take q sku [] = refl
return-take q sku (s ∷ ss) =
    ground (arith, add-sub s.available q, sub-add s.reserved q, return-take q sku ss)

return_fits :
    (q : ℤ) (sku : String) (ss : List Stock)
    → StockInRange ss
    → stock_fits (return_units q) sku (set_stock (take_units q) sku ss) ≡ true
unfolding take_units return_units
return_fits q sku [] h = refl
return_fits q sku (s ∷ ss) h =
    ground (arith, add-sub s.available q, sub-add s.reserved q, return_fits q sku ss h.1)

module _ (pg : Postgres) (saga id key consumer u : String) (build : EventBuilder ReleaseOutcome)
    (ob : Insert) (payload : String) (cast : pg.uuid_cast saga ≡ some u)
    (built : build (record { released = true; duplicate = false }) ≡ ok ob)
    (json : pg.jsonb_cast ob.payload ≡ some payload) where
  -- A release that finds its reservation, and whose event can be built and stored, succeeds.
  release_ok :
      (d : State) (old : Reservation)
      → is_processed key consumer d.processed_messages ≡ false
      → find_reserved u d.reservations ≡ some old
      → stock_fits (return_units old.quantity) old.sku d.stock ≡ true
      → release pg saga id key consumer build d ≡ (
        ok (record { released = true; duplicate = false }),
        record d {
          stock = set_stock (return_units old.quantity) old.sku d.stock;
          reservations = set_released u d.reservations;
          processed_messages = marker key consumer ∷ d.processed_messages;
          outbox = d.outbox ++ new_row ob payload d.now (pg.random_uuid d.drawn) ∷ [];
          drawn = suc d.drawn;
        },
      )
  unfolding release
  release_ok d old new found fits = ground arith

  module _ (key' sku : String) (q : ℤ) (build' : EventBuilder ReserveOutcome) (d : State) where
    -- The release is done, gives the stock back and leaves the saga no open reservation.
    abbrev pub Undone : State → Type 0
    Undone d' =
        let (r, d'') = release pg saga id key consumer build d' in
        (r ≡ ok (record { released = true; duplicate = false }))
        × (d''.stock ≡ d.stock)
        × (find_reserved u d''.reservations ≡ none)

    accepted-Undone :
        (w : String) (ob' : Insert) (p' : String)
        → pg.uuid_cast saga ≡ some w
        → is_processed key consumer d.processed_messages ≡ false
        → consumer ≢ consumer_reserve
        → StockInRange d.stock
        → Undone (after_accepted pg saga key' sku q build' d w ob' p')
    accepted-Undone w ob' p' c new other range = ground (
      arith,
      release_ok (after_accepted pg saga key' sku q build' d w ob' p')
          (new_reservation pg saga key' sku q build' d w),
      return-take q sku d.stock,
      return_fits q sku d.stock range,
      set_released-closed u (new_reservation pg saga key' sku q build' d w ∷ d.reservations),
    )

    ReserveStep-Undone :
        {r : _} {d' : State}
        → ReserveStep pg saga key' sku q build' d r d'
        → (o : ReserveOutcome) → r ≡ ok o
        → o.status ≡ ReserveStatus.reserved
        → o.duplicate ≡ false
        → find_saga u d.reservations ≡ none
        → is_processed key consumer d.processed_messages ≡ false
        → consumer ≢ consumer_reserve
        → StockInRange d.stock
        → Undone d'
    ReserveStep-Undone (ReserveStep.failed e x y) o h st du f new other range = cc
    ReserveStep-Undone (ReserveStep.repeated w a k x y) o h st du f new other range =
        absurd (ground arith)
    ReserveStep-Undone (ReserveStep.refused ob z a k e i x y) o h st du f new other range =
        absurd (ground arith)
    ReserveStep-Undone (ReserveStep.accepted w ob' z a k e i j l x y) o h st du f new other range =
        rw y (accepted-Undone w ob' z e new other range)
    ReserveStep-Undone (ReserveStep.accepted_again w old ob' z a k e i j l x y) o h st du f new
          other range =
        absurd (ground arith)

    -- The saga id is a text that PostgreSQL reads as a UUID, the saga has no reservation yet, the
    -- stock counts are in the range of their columns, and a call of reserve answers RESERVED, not
    -- as a duplicate. Then a release that follows it, under another consumer than that of reserve
    -- and a key that this consumer has not processed, whose event can be built and has a payload
    -- that PostgreSQL reads as JSON, says that it released, gives every stock row the counts that
    -- it had before the reservation, and leaves the saga no open reservation.
    pub release-reserve :
        (o : ReserveOutcome) (d' : State)
        → find_saga u d.reservations ≡ none
        → is_processed key consumer d.processed_messages ≡ false
        → consumer ≢ consumer_reserve
        → StockInRange d.stock
        → o.status ≡ ReserveStatus.reserved
        → o.duplicate ≡ false
        → reserve pg saga key' sku q build' d ≡ (ok o, d')
        → Undone d'
    release-reserve o d' f new other range st du h =
        ReserveStep-Undone (ReserveSteps.step_of pg saga key' sku q build' d h) o refl st du f new
          other range
