-- ===== src/Relay/Covered.antt =====
-- Outbox rows for which a message has been accepted, and what the steps of Relay/Threads do to them.
use choreography_saga_demo.Base.{
  ℕ, String, text_dec, ◌≡◌, refl, ◌⊎◌, inl, inr, Bool, true, false, List, [], ◌∷◌, ◌++◌, map, some,
  arith, All, All-append, ite, take, ◌||◌,
}
use choreography_saga_demo.Base.Int.{ℤ, pos, negsuc}
use choreography_saga_demo.Base.Outcome.{Error, ok, throws}
use choreography_saga_demo.Outbox.{Record}
use choreography_saga_demo.Repository.{ReserveOutcome, ReleaseOutcome, EventBuilder}
use choreography_saga_demo.Relay.Threads.{Pc, resting, sending, marking, failing, Threads}
use choreography_saga_demo.Relay.Rows.{select-All, order-All, take-All}
use choreography_saga_demo.Database.Tables.{Postgres, PostgresLaws, OutboxStatus, OutboxRow, State}
use choreography_saga_demo.Database.OutboxSql.{
  is_pending, select_pending, order_by_time, limit_rows, update_row, set_published, set_attempted,
}
use choreography_saga_demo.Database.ReserveSteps.{ReserveStep}
use choreography_saga_demo.Database.ReleaseSteps.{ReleaseStep}
use choreography_saga_demo.Database.{record_of, fetch_pending, mark_published, mark_failed}

-- The records of that id are among the accepted ones.
abbrev pub has_id : String → List Record → Bool
has_id id [] = false
has_id id (rec ∷ recs) = ite (text_dec rec.id id) true (has_id id recs)

-- A row is pending, or a message for it has been accepted.
abbrev pub IsCovered : List Record → OutboxRow → Type 0
IsCovered accepted r = (is_pending r.status || has_id r.id accepted) ≡ true

pub has_id-append :
    (id : String) (xs : List Record) (rec : Record)
    → has_id id xs ≡ true
    → has_id id (xs ++ rec ∷ []) ≡ true
has_id-append id [] rec h = cc
has_id-append id (x ∷ xs) rec h = ground (arith, has_id-append id xs rec)

pub has_id-last : (xs : List Record) (rec : Record) → has_id rec.id (xs ++ rec ∷ []) ≡ true
has_id-last [] rec = ground arith
has_id-last (x ∷ xs) rec = ground (arith, has_id-last xs rec)

module _ (pg : Postgres) where
  -- The id is one that PostgreSQL writes.
  abbrev pub IsCanonical : String → Type 0
  IsCanonical id = pg.uuid_cast id ≡ some id

  -- What the relay's thread has in its hands.
  abbrev pub Holds : List Record → Pc → Type 0
  Holds accepted resting = Unit
  Holds accepted (sending rows) = All (λ rec. IsCanonical rec.id) rows
  Holds accepted (marking rec rows) =
      (has_id rec.id accepted ≡ true) × IsCanonical rec.id × All (λ x. IsCanonical x.id) rows
  Holds accepted (failing rec e) = IsCanonical rec.id

  pub record IsSound {P : Type 0} (s : Threads P) : Type 0 where
    pub covered : All (IsCovered s.accepted) s.database.outbox
    pub canonical : All (λ r. IsCanonical r.id) s.database.outbox
    pub holds : Holds s.accepted s.pc

  pub IsCovered-append :
      (recs : List Record) (rec : Record) (rows : List OutboxRow)
      → All (IsCovered recs) rows
      → All (IsCovered (recs ++ rec ∷ [])) rows
  IsCovered-append recs rec [] h = tt
  IsCovered-append recs rec (r ∷ rs) h =
      ground (arith, has_id-append r.id recs rec, IsCovered-append recs rec rs h.1)

  IsCovered-published :
      (recs : List Record) (id : String) (now : ℕ) (rows : List OutboxRow)
      → has_id id recs ≡ true
      → All (IsCovered recs) rows
      → All (IsCovered recs) (update_row id (set_published now) rows)
  IsCovered-published recs id now [] k h = tt
  IsCovered-published recs id now (r ∷ rs) k h =
      ground (arith, IsCovered-published recs id now rs k h.1)

  IsCovered-attempted :
      (recs : List Record) (id : String) (rows : List OutboxRow)
      → All (IsCovered recs) rows
      → All (IsCovered recs) (update_row id set_attempted rows)
  IsCovered-attempted recs id [] h = tt
  IsCovered-attempted recs id (r ∷ rs) h = ground (arith, IsCovered-attempted recs id rs h.1)

  -- An update that keeps the ids.
  update_row-All-IsCanonical :
      (id : String) (f : OutboxRow → OutboxRow) (rows : List OutboxRow)
      → ((r : OutboxRow) → (f r).id ≡ r.id)
      → All (λ r. IsCanonical r.id) rows
      → All (λ r. IsCanonical r.id) (update_row id f rows)
  update_row-All-IsCanonical id f [] keeps h = tt
  update_row-All-IsCanonical id f (r ∷ rs) keeps h =
      ground (arith, keeps r, update_row-All-IsCanonical id f rs keeps h.1)

  pub map-IsCanonical :
      (rows : List OutboxRow)
      → All (λ r. IsCanonical r.id) rows
      → All (λ rec. IsCanonical rec.id) (map record_of rows)
  map-IsCanonical [] h = tt
  map-IsCanonical (r ∷ rs) h = (h.0, map-IsCanonical rs h.1)

  -- A fetch changes nothing, and returns records of rows.
  pub fetch-IsCanonical :
      (locked : String → Bool) (size : ℤ) (d d' : State) (rows : List Record)
      → All (λ r. IsCanonical r.id) d.outbox
      → fetch_pending locked size d ≡ (ok rows, d')
      → (d' ≡ d) × All (λ rec. IsCanonical rec.id) rows
  unfolding fetch_pending limit_rows
  fetch-IsCanonical locked (pos n) d d' rows h e =
      let batch : List OutboxRow = take n (order_by_time (select_pending locked d.outbox)) in
      let same : map record_of batch ≡ rows = ground arith in
      (
        ground arith,
        rw (← same) (
            map-IsCanonical batch (
              take-All (λ r. IsCanonical r.id) n (order_by_time (select_pending locked d.outbox))
                (order-All (λ r. IsCanonical r.id) (select_pending locked d.outbox)
                  (select-All (λ r. IsCanonical r.id) locked d.outbox h)))),
      )
  fetch-IsCanonical locked (negsuc n) d d' rows h e = absurd (ground arith)

  -- What reserve and release do to the outbox: nothing, or a pending row with a drawn id is added.
  abbrev pub Enqueues : State → State → Type 0
  Enqueues d d' =
      (d'.outbox ≡ d.outbox)
      ⊎ ((r : OutboxRow) × (k : ℕ) × (d'.outbox ≡ d.outbox ++ r ∷ [])
          × (r.status ≡ OutboxStatus.pending)
          × (r.id ≡ pg.random_uuid k))

  pub ReserveStep-Enqueues :
      (saga key sku : String) (q : ℤ) (build : EventBuilder ReserveOutcome) (d : State) {r : _}
      {d' : State}
      → ReserveStep pg saga key sku q build d r d'
      → Enqueues d d'
  ReserveStep-Enqueues saga key sku q build d (ReserveStep.failed e x y) = rw y (inl refl)
  ReserveStep-Enqueues saga key sku q build d (ReserveStep.repeated u a b x y) = rw y (inl refl)
  ReserveStep-Enqueues saga key sku q build d (ReserveStep.refused ob p a b c e x y) =
      rw y (inr (_, _, refl, refl, refl))
  ReserveStep-Enqueues saga key sku q build d (ReserveStep.accepted u ob p a b c e f g x y) =
      rw y (inr (_, _, refl, refl, refl))
  ReserveStep-Enqueues saga key sku q build d
        (ReserveStep.accepted_again u o ob p a b c e f g x y) =
      rw y (inr (_, _, refl, refl, refl))

  pub ReleaseStep-Enqueues :
      (saga id key consumer : String) (build : EventBuilder ReleaseOutcome) (d : State) {r : _}
      {d' : State}
      → ReleaseStep pg saga id key consumer build d r d'
      → Enqueues d d'
  ReleaseStep-Enqueues saga id key consumer build d (ReleaseStep.failed e x y) = rw y (inl refl)
  ReleaseStep-Enqueues saga id key consumer build d (ReleaseStep.repeated a x y) = rw y (inl refl)
  ReleaseStep-Enqueues saga id key consumer build d (ReleaseStep.nothing u a b c x y) =
      rw y (inl refl)
  ReleaseStep-Enqueues saga id key consumer build d (ReleaseStep.returned u o ob p a b c e f x y) =
      rw y (inr (_, _, refl, refl, refl))

  -- A row that is marked published, or not, by the relay.
  pub mark_published-rows :
      (recs : List Record) (id : String) (d d' : State)
      → IsCanonical id
      → has_id id recs ≡ true
      → mark_published pg id d ≡ (ok tt, d')
      → All (IsCovered recs) d.outbox
      → All (λ r. IsCanonical r.id) d.outbox
      → All (IsCovered recs) d'.outbox × All (λ r. IsCanonical r.id) d'.outbox
  unfolding mark_published
  mark_published-rows recs id d d' c k e h j =
      let after : record d { outbox = update_row id (set_published d.now) d.outbox } ≡ d' =
        ground arith in
      rw (← after) (
        IsCovered-published recs id d.now d.outbox k h,
        update_row-All-IsCanonical id (set_published d.now) d.outbox (λ r. refl) j,
      )

  pub mark_published-throws :
      (id : String) (d d' : State) (e : Error) → mark_published pg id d ≡ (throws e, d') → d' ≡ d
  unfolding mark_published
  mark_published-throws id d d' e h = ground arith

  pub mark_failed-rows :
      (recs : List Record) (id : String) (d : State)
      → IsCanonical id
      → All (IsCovered recs) d.outbox
      → All (λ r. IsCanonical r.id) d.outbox
      → All (IsCovered recs) (mark_failed pg id d).1.outbox
        × All (λ r. IsCanonical r.id) (mark_failed pg id d).1.outbox
  unfolding mark_failed
  mark_failed-rows recs id d c h j = ground (
    arith,
    IsCovered-attempted recs id d.outbox h,
    update_row-All-IsCanonical id set_attempted d.outbox (λ r. refl) j,
  )

  pub Enqueues-rows :
      (laws : PostgresLaws pg) (recs : List Record) (d d' : State)
      → Enqueues d d'
      → All (IsCovered recs) d.outbox
      → All (λ r. IsCanonical r.id) d.outbox
      → All (IsCovered recs) d'.outbox × All (λ r. IsCanonical r.id) d'.outbox
  Enqueues-rows laws recs d d' (inl same) h j = rw same (h, j)
  Enqueues-rows laws recs d d' (inr (r, k, more, status, id)) h j = rw more (
    All-append (IsCovered recs) d.outbox (r ∷ []) h (ground arith, tt),
    All-append (λ x. IsCanonical x.id) d.outbox (r ∷ []) j (rw id (laws.random_valid k), tt),
  )
