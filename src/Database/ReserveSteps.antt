-- ===== src/Database/ReserveSteps.antt =====
-- What a call of `reserve` did, by the branch that it took: the outcome and the whole
-- new state of the database.
use choreography_saga_demo.Base.{
  suc, String, ◌≡◌, inl, inr, Bool, true, false, ◌||◌, [], ◌∷◌, ◌++◌, none, some, arith, is_empty,
  if◌then◌else◌, Option-cases, Bool-cases,
}
use choreography_saga_demo.Base.Int.{ℤ, ltb_ℤ}
use choreography_saga_demo.Base.Outcome.{
  Error, Outcome, ok, throws, invalid_uuid, invalid_json, int_out_of_range, Outcome-cases,
}
use choreography_saga_demo.Domain.{ReservationState, is_poison_sku}
use choreography_saga_demo.Outbox.{Insert}
use choreography_saga_demo.Repository.{ReserveOutcome, EventBuilder}
use choreography_saga_demo.Database.Tables.{Postgres, Reservation, State}
use choreography_saga_demo.Database.Sql.{
  is_processed, find_reserved, find_saga, id_or_empty, find_stock, available_or_zero, take_units,
  set_stock, stock_fits, marker,
}
use choreography_saga_demo.Database.OutboxSql.{new_row}
use choreography_saga_demo.Database.{reserve, consumer_reserve, failed_outcome, reserved_outcome}

module _ (pg : Postgres) (saga_id key sku : String) (q : ℤ) (build : EventBuilder ReserveOutcome)
    (d : State) where
  abbrev pub repeated_answer : String → ReserveOutcome
  repeated_answer u =
      let id : String = id_or_empty (find_reserved u d.reservations) in
      if is_empty id then failed_outcome true else reserved_outcome true id

  abbrev pub is_refused : Bool
  is_refused = is_poison_sku sku || ltb_ℤ (available_or_zero (find_stock sku d.stock)) q

  -- The reservation that an accepted call stands for: the row of the saga, or else a new one.
  abbrev pub new_reservation : String → Reservation
  new_reservation u = record {
    id = pg.random_uuid d.drawn;
    saga_id = u;
    sku = sku;
    quantity = q;
    status = ReservationState.reserved;
  }

  -- The states that a call leaves when the reservation is refused, when it is accepted, and when it is
  -- accepted for a saga that has a row.
  abbrev pub after_refused : Insert → String → State
  after_refused ob payload = record d {
    processed_messages = marker key consumer_reserve ∷ d.processed_messages;
    outbox = d.outbox ++ new_row ob payload d.now (pg.random_uuid d.drawn) ∷ [];
    drawn = suc d.drawn;
  }

  abbrev pub after_accepted : String → Insert → String → State
  after_accepted u ob payload = record d {
    stock = set_stock (take_units q) sku d.stock;
    reservations = new_reservation u ∷ d.reservations;
    processed_messages = marker key consumer_reserve ∷ d.processed_messages;
    outbox = d.outbox ++ new_row ob payload d.now (pg.random_uuid (suc d.drawn)) ∷ [];
    drawn = suc (suc d.drawn);
  }

  abbrev pub after_again : Insert → String → State
  after_again ob payload = record d {
    stock = set_stock (take_units q) sku d.stock;
    processed_messages = marker key consumer_reserve ∷ d.processed_messages;
    outbox = d.outbox ++ new_row ob payload d.now (pg.random_uuid (suc d.drawn)) ∷ [];
    drawn = suc (suc d.drawn);
  }

  pub data ReserveStep (r : Outcome ReserveOutcome) (d' : State) : Type 0 where
    failed : (e : Error) → r ≡ throws e → d' ≡ d → ReserveStep r d'
    repeated :
        (u : String)
        → is_processed key consumer_reserve d.processed_messages ≡ true
        → pg.uuid_cast saga_id ≡ some u
        → r ≡ ok (repeated_answer u)
        → d' ≡ d
        → ReserveStep r d'
    refused :
        (ob : Insert) (payload : String)
        → is_processed key consumer_reserve d.processed_messages ≡ false
        → is_refused ≡ true
        → build (failed_outcome false) ≡ ok ob
        → pg.jsonb_cast ob.payload ≡ some payload
        → r ≡ ok (failed_outcome false)
        → d' ≡ after_refused ob payload
        → ReserveStep r d'
    accepted :
        (u : String) (ob : Insert) (payload : String)
        → is_processed key consumer_reserve d.processed_messages ≡ false
        → is_refused ≡ false
        → pg.uuid_cast saga_id ≡ some u
        → find_saga u d.reservations ≡ none
        → build (reserved_outcome false (pg.random_uuid d.drawn)) ≡ ok ob
        → pg.jsonb_cast ob.payload ≡ some payload
        → r ≡ ok (reserved_outcome false (pg.random_uuid d.drawn))
        → d' ≡ after_accepted u ob payload
        → ReserveStep r d'
    accepted_again :
        (u : String) (old : Reservation) (ob : Insert) (payload : String)
        → is_processed key consumer_reserve d.processed_messages ≡ false
        → is_refused ≡ false
        → pg.uuid_cast saga_id ≡ some u
        → find_saga u d.reservations ≡ some old
        → build (reserved_outcome false old.id) ≡ ok ob
        → pg.jsonb_cast ob.payload ≡ some payload
        → r ≡ ok (reserved_outcome false old.id)
        → d' ≡ after_again ob payload
        → ReserveStep r d'

  refused_steps :
      is_processed key consumer_reserve d.processed_messages ≡ false
      → is_refused ≡ true
      → let (r, d') = reserve pg saga_id key sku q build d in ReserveStep r d'
  unfolding reserve
  refused_steps new short = elim (Outcome-cases (build (failed_outcome false))) [
    | inl (e, x) ↦ failed e (ground arith) (ground arith)
    | inr (ob, x) ↦ elim (Option-cases (pg.jsonb_cast ob.payload)) [
      | inl bad ↦ failed invalid_json (ground arith) (ground arith)
      | inr (payload, y) ↦ refused ob payload new short x y (ground arith) (ground arith)
    ]
  ]

  accepted_steps :
      (u : String)
      → is_processed key consumer_reserve d.processed_messages ≡ false
      → is_refused ≡ false
      → stock_fits (take_units q) sku d.stock ≡ true
      → pg.uuid_cast saga_id ≡ some u
      → find_saga u d.reservations ≡ none
      → let (r, d') = reserve pg saga_id key sku q build d in ReserveStep r d'
  unfolding reserve
  accepted_steps u new enough fits cast fresh =
      elim (Outcome-cases (build (reserved_outcome false (pg.random_uuid d.drawn)))) [
        | inl (e, x) ↦ failed e (ground arith) (ground arith)
        | inr (ob, x) ↦ elim (Option-cases (pg.jsonb_cast ob.payload)) [
          | inl bad ↦ failed invalid_json (ground arith) (ground arith)
          | inr (payload, y) ↦
              accepted u ob payload new enough cast fresh x y (ground arith) (ground arith)
        ]
      ]

  accepted_again_steps :
      (u : String) (old : Reservation)
      → is_processed key consumer_reserve d.processed_messages ≡ false
      → is_refused ≡ false
      → stock_fits (take_units q) sku d.stock ≡ true
      → pg.uuid_cast saga_id ≡ some u
      → find_saga u d.reservations ≡ some old
      → let (r, d') = reserve pg saga_id key sku q build d in ReserveStep r d'
  unfolding reserve
  accepted_again_steps u old new enough fits cast found =
      elim (Outcome-cases (build (reserved_outcome false old.id))) [
        | inl (e, x) ↦ failed e (ground arith) (ground arith)
        | inr (ob, x) ↦ elim (Option-cases (pg.jsonb_cast ob.payload)) [
          | inl bad ↦ failed invalid_json (ground arith) (ground arith)
          | inr (payload, y) ↦
              accepted_again u old ob payload new enough cast found x y (ground arith)
                (ground arith)
        ]
      ]

  enough_steps :
      is_processed key consumer_reserve d.processed_messages ≡ false
      → is_refused ≡ false
      → let (r, d') = reserve pg saga_id key sku q build d in ReserveStep r d'
  unfolding reserve
  enough_steps new enough = elim (Bool-cases (stock_fits (take_units q) sku d.stock)) [
    | inr over ↦ failed int_out_of_range (ground arith) (ground arith)
    | inl fits ↦ elim (Option-cases (pg.uuid_cast saga_id)) [
      | inl bad ↦ failed invalid_uuid (ground arith) (ground arith)
      | inr (u, cast) ↦ elim (Option-cases (find_saga u d.reservations)) [
        | inl fresh ↦ accepted_steps u new enough fits cast fresh
        | inr (old, found) ↦ accepted_again_steps u old new enough fits cast found
      ]
    ]
  ]

  -- Every call of `reserve` is one of these steps. It throws, and changes nothing. Its key was
  -- processed before, and it answers from the saga's open reservation as a duplicate and changes
  -- nothing. Under a new key the SKU is the poison one or has too few units, and it answers
  -- INSUFFICIENT_STOCK, marks the key processed and enqueues the event that was built for this answer.
  -- Or there are enough units: it takes them from the stock row, marks the key, enqueues the event, and
  -- adds a reservation with a fresh id for a saga that has none; a saga that has one, open or released,
  -- keeps it as it is, and the answer is RESERVED with its id.
  pub reserve_steps : let (r, d') = reserve pg saga_id key sku q build d in ReserveStep r d'
  unfolding reserve
  reserve_steps = elim (Bool-cases (is_processed key consumer_reserve d.processed_messages)) [
    | inl old ↦ elim (Option-cases (pg.uuid_cast saga_id)) [
      | inl bad ↦ failed invalid_uuid (ground arith) (ground arith)
      | inr (u, cast) ↦ repeated u old cast (ground arith) (ground arith)
    ]
    | inr new ↦ elim (Bool-cases is_refused) [
      | inl short ↦ refused_steps new short
      | inr enough ↦ enough_steps new enough
    ]
  ]

  pub step_of :
      {r : Outcome ReserveOutcome} {d' : State}
      → reserve pg saga_id key sku q build d ≡ (r, d')
      → ReserveStep r d'
  step_of h = rw h at reserve_steps
