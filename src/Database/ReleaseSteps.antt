-- ===== src/Database/ReleaseSteps.antt =====
-- What a call of `release` did, by the branch that it took: the outcome and the whole new state of
-- the database.
use choreography_saga_demo.Base.{
  suc, String, ◌≡◌, refl, inl, inr, true, false, List, [], ◌∷◌, ◌++◌, none, some, arith,
  Option-cases, Bool-cases,
}
use choreography_saga_demo.Base.Outcome.{
  Error, Outcome, ok, throws, invalid_uuid, invalid_json, int_out_of_range, Outcome-cases,
}
use choreography_saga_demo.Outbox.{Insert}
use choreography_saga_demo.Repository.{ReleaseOutcome, EventBuilder}
use choreography_saga_demo.Database.Tables.{Postgres, Reservation, State}
use choreography_saga_demo.Database.Sql.{
  is_processed, find_reserved, return_units, set_stock, stock_fits, set_released, marker,
}
use choreography_saga_demo.Database.OutboxSql.{new_row}
use choreography_saga_demo.Database.{release}

pub set_released-none :
    (u : String) (rows : List Reservation)
    → find_reserved u rows ≡ none
    → set_released u rows ≡ rows
set_released-none u [] h = refl
set_released-none u (r ∷ rs) h = ground (arith, set_released-none u rs)

pub set_released-closed :
    (u : String) (rows : List Reservation) → find_reserved u (set_released u rows) ≡ none
set_released-closed u [] = refl
set_released-closed u (r ∷ rs) = ground (arith, set_released-closed u rs)

module _ (pg : Postgres) (saga_id reservation_id key consumer : String)
    (build : EventBuilder ReleaseOutcome) (d : State) where
  abbrev pub released_outcome : ReleaseOutcome
  released_outcome = record { released = true; duplicate = false }

  pub data ReleaseStep (r : Outcome ReleaseOutcome) (d' : State) : Type 0 where
    failed : (e : Error) → r ≡ throws e → d' ≡ d → ReleaseStep r d'
    repeated :
        is_processed key consumer d.processed_messages ≡ true
        → r ≡ ok (record { released = false; duplicate = true })
        → d' ≡ d
        → ReleaseStep r d'
    nothing :
        (u : String)
        → is_processed key consumer d.processed_messages ≡ false
        → pg.uuid_cast saga_id ≡ some u
        → find_reserved u d.reservations ≡ none
        → r ≡ ok (record { released = false; duplicate = false })
        → d' ≡ record d { processed_messages = marker key consumer ∷ d.processed_messages }
        → ReleaseStep r d'
    returned :
        (u : String) (old : Reservation) (ob : Insert) (payload : String)
        → is_processed key consumer d.processed_messages ≡ false
        → pg.uuid_cast saga_id ≡ some u
        → find_reserved u d.reservations ≡ some old
        → build released_outcome ≡ ok ob
        → pg.jsonb_cast ob.payload ≡ some payload
        → r ≡ ok released_outcome
        → d' ≡ record d {
          stock = set_stock (return_units old.quantity) old.sku d.stock;
          reservations = set_released u d.reservations;
          processed_messages = marker key consumer ∷ d.processed_messages;
          outbox = d.outbox ++ new_row ob payload d.now (pg.random_uuid d.drawn) ∷ [];
          drawn = suc d.drawn;
        }
        → ReleaseStep r d'

  returned_steps :
      (u : String) (old : Reservation)
      → is_processed key consumer d.processed_messages ≡ false
      → pg.uuid_cast saga_id ≡ some u
      → find_reserved u d.reservations ≡ some old
      → stock_fits (return_units old.quantity) old.sku d.stock ≡ true
      → let (r, d') = release pg saga_id reservation_id key consumer build d in ReleaseStep r d'
  unfolding release
  returned_steps u old new cast found fits = elim (Outcome-cases (build released_outcome)) [
    | inl (e, x) ↦ failed e (ground arith) (ground arith)
    | inr (ob, x) ↦ elim (Option-cases (pg.jsonb_cast ob.payload)) [
      | inl bad ↦ failed invalid_json (ground arith) (ground arith)
      | inr (payload, y) ↦
          returned u old ob payload new cast found x y (ground arith) (ground arith)
    ]
  ]

  new_steps :
      (u : String)
      → is_processed key consumer d.processed_messages ≡ false
      → pg.uuid_cast saga_id ≡ some u
      → let (r, d') = release pg saga_id reservation_id key consumer build d in ReleaseStep r d'
  unfolding release
  new_steps u new cast = elim (Option-cases (find_reserved u d.reservations)) [
    | inl missing ↦
        nothing u new cast missing (ground arith)
          (ground (arith, set_released-none u d.reservations missing))
    | inr (old, found) ↦
        elim (Bool-cases (stock_fits (return_units old.quantity) old.sku d.stock)) [
          | inl fits ↦ returned_steps u old new cast found fits
          | inr over ↦ failed int_out_of_range (ground arith) (ground arith)
        ]
  ]

  -- Every call of `release` is one of these steps. It throws, and changes nothing. Its key was processed
  -- before by this consumer, and it answers as a duplicate and changes nothing. The saga has no open
  -- reservation, and it only marks the key processed. Or it has one: its status becomes RELEASED, its
  -- units go back to the stock row of its SKU, the key is marked, and the event that was built for
  -- this answer is enqueued.
  pub release_steps :
      let (r, d') = release pg saga_id reservation_id key consumer build d in ReleaseStep r d'
  unfolding release
  release_steps = elim (Bool-cases (is_processed key consumer d.processed_messages)) [
    | inl old ↦ repeated old (ground arith) (ground arith)
    | inr new ↦ elim (Option-cases (pg.uuid_cast saga_id)) [
      | inl bad ↦ failed invalid_uuid (ground arith) (ground arith)
      | inr (u, cast) ↦ new_steps u new cast
    ]
  ]

  pub step_of :
      {r : Outcome ReleaseOutcome} {d' : State}
      → release pg saga_id reservation_id key consumer build d ≡ (r, d')
      → ReleaseStep r d'
  step_of h = rw h at release_steps
