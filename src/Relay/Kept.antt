-- ===== src/Relay/Kept.antt =====
-- The rows of one id, and the records of it, under the statements of the relay.
use choreography_saga_demo.Base.{
  ℕ, String, text_dec, ◌≡◌, sym, ◌∙◌, ◌⊎◌, inl, inr, Bool, true, List, [], ◌∷◌, map, arith, All,
  ite, take,
}
use choreography_saga_demo.Base.Int.{ℤ, pos, negsuc}
use choreography_saga_demo.Base.Outcome.{ok}
use choreography_saga_demo.Outbox.{Record}
use choreography_saga_demo.Relay.Rows.{select-All, order-All, take-All}
use choreography_saga_demo.Relay.Covered.{IsCanonical}
use choreography_saga_demo.Database.Tables.{Postgres, OutboxRow, State}
use choreography_saga_demo.Database.OutboxSql.{
  is_pending, select_pending, order_by_time, limit_rows, update_row, set_published, set_attempted,
}
use choreography_saga_demo.Database.{record_of, fetch_pending, mark_published, mark_failed}

-- The records of the id `x` are `c`.
abbrev pub Says : String → Record → Record → Type 0
Says x c rec = rec.id ≡ x → rec ≡ c

-- The rows of the id `x` say `c`, and are pending unless `Done`.
abbrev pub Keeps : String → Record → Type 0 → OutboxRow → Type 0
Keeps x c Done r = r.id ≡ x → (record_of r ≡ c) × ((is_pending r.status ≡ true) ⊎ Done)

map-Says :
    (x : String) (c : Record) (Done : Type 0) (rows : List OutboxRow)
    → All (Keeps x c Done) rows
    → All (Says x c) (map record_of rows)
map-Says x c Done [] h = tt
map-Says x c Done (r ∷ rs) h = (λ e. (h.0 e).0, map-Says x c Done rs h.1)

pub fetch-Says :
    (x : String) (c : Record) (Done : Type 0) (locked : String → Bool) (size : ℤ) (d d' : State)
    (rows : List Record)
    → All (Keeps x c Done) d.outbox
    → fetch_pending locked size d ≡ (ok rows, d')
    → (d' ≡ d) × All (Says x c) rows
unfolding fetch_pending limit_rows
fetch-Says x c Done locked (pos n) d d' rows h e =
    let batch : List OutboxRow = take n (order_by_time (select_pending locked d.outbox)) in
    let same : map record_of batch ≡ rows = ground arith in
    (
      ground arith,
      rw (← same) (
          map-Says x c Done batch (
            take-All (Keeps x c Done) n (order_by_time (select_pending locked d.outbox)) (
              order-All (Keeps x c Done) (select_pending locked d.outbox)
                (select-All (Keeps x c Done) locked d.outbox h)))),
    )
fetch-Says x c Done locked (negsuc n) d d' rows h e = absurd (ground arith)

pub Keeps-done :
    (x : String) (c : Record) (Done Later : Type 0) (rows : List OutboxRow)
    → (Done → Later)
    → All (Keeps x c Done) rows
    → All (Keeps x c Later) rows
Keeps-done x c Done Later [] f h = tt
Keeps-done x c Done Later (r ∷ rs) f h = (
  λ e. ((h.0 e).0, elim (h.0 e).1 [ inl p ↦ inl p | inr d ↦ inr (f d) ]),
  Keeps-done x c Done Later rs f h.1,
)

row_published :
    (x id : String) (c : Record) (Done : Type 0) (now : ℕ) (r : OutboxRow) (same : Dec (r.id ≡ id))
    → (id ≡ x → Done)
    → Keeps x c Done r
    → Keeps x c Done (ite same (set_published now r) r)
row_published x id c Done now r (yes e) f h = λ q. ((h q).0, inr (f (sym e ∙ q)))
row_published x id c Done now r (no n) f h = h

row_attempted :
    (x id : String) (c : Record) (Done : Type 0) (r : OutboxRow) (same : Dec (r.id ≡ id))
    → Keeps x c Done r
    → Keeps x c Done (ite same (set_attempted r) r)
row_attempted x id c Done r (yes e) h = h
row_attempted x id c Done r (no n) h = h

pub Keeps-published :
    (x id : String) (c : Record) (Done : Type 0) (now : ℕ) (rows : List OutboxRow)
    → (id ≡ x → Done)
    → All (Keeps x c Done) rows
    → All (Keeps x c Done) (update_row id (set_published now) rows)
Keeps-published x id c Done now [] f h = tt
Keeps-published x id c Done now (r ∷ rs) f h = (
  row_published x id c Done now r (text_dec r.id id) f h.0,
  Keeps-published x id c Done now rs f h.1,
)

Keeps-attempted :
    (x id : String) (c : Record) (Done : Type 0) (rows : List OutboxRow)
    → All (Keeps x c Done) rows
    → All (Keeps x c Done) (update_row id set_attempted rows)
Keeps-attempted x id c Done [] h = tt
Keeps-attempted x id c Done (r ∷ rs) h =
    (row_attempted x id c Done r (text_dec r.id id) h.0, Keeps-attempted x id c Done rs h.1)

pub marked_rows :
    (pg : Postgres) (id : String) (d d' : State)
    → IsCanonical pg id
    → mark_published pg id d ≡ (ok tt, d')
    → record d { outbox = update_row id (set_published d.now) d.outbox } ≡ d'
unfolding mark_published
marked_rows pg id d d' valid e = ground arith

pub failed_rows :
    (pg : Postgres) (x id : String) (c : Record) (Done : Type 0) (d : State)
    → IsCanonical pg id
    → All (Keeps x c Done) d.outbox
    → ((mark_failed pg id d).1.drawn ≡ d.drawn)
      × All (Keeps x c Done) (mark_failed pg id d).1.outbox
unfolding mark_failed
failed_rows pg x id c Done d valid h = ground (arith, Keeps-attempted x id c Done d.outbox h)
