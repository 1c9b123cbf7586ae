-- ===== src/Database/Sql.antt =====
-- The SQL statements of services/inventory/src/db.cpp, each as a call on the tables. A statement
-- that PostgreSQL refuses throws.
use choreography_saga_demo.Base.{
  suc, String, text_dec, Bool, true, false, ◌&&◌, List, [], ◌∷◌, Option, none, some, ite,
  if◌then◌else◌,
}
use choreography_saga_demo.Base.Int.{ℤ, pos, ◌+ℤ◌, ◌-ℤ◌, fits_int}
use choreography_saga_demo.Base.Outcome.{
  ok, throws, Proc, ◌>>=◌, pure, throw, gets, invalid_uuid, int_out_of_range,
}
use choreography_saga_demo.Domain.{ReservationState}
use choreography_saga_demo.Database.Tables.{Postgres, Stock, Reservation, ProcessedMessage, State}

abbrev pub is_processed : String → String → List ProcessedMessage → Bool
is_processed key consumer [] = false
is_processed key consumer (m ∷ ms) =
    ite (text_dec m.idempotency_key key)
      (ite (text_dec m.consumer consumer) true (is_processed key consumer ms))
      (is_processed key consumer ms)

abbrev pub marker : String → String → ProcessedMessage
marker key consumer = record { idempotency_key = key; consumer = consumer }

-- INSERT INTO processed_messages ... ON CONFLICT DO NOTHING: false if the pair is there.
unfoldable pub mark_processed : String → String → Proc State Bool
mark_processed key consumer d = elim (is_processed key consumer d.processed_messages) [
  | true ↦ (ok false, d)
  | false ↦ (ok true, record d { processed_messages = marker key consumer ∷ d.processed_messages })
]

-- $n::uuid.
unfoldable pub cast_uuid : Postgres → String → Proc State String
cast_uuid pg s = elim (pg.uuid_cast s) [ some u ↦ pure u | none ↦ throw invalid_uuid ]

abbrev pub is_reserved : ReservationState → Bool
is_reserved ReservationState.reserved = true
is_reserved ReservationState.released = false

-- The row WHERE saga_id = $1 AND status = 'RESERVED'.
abbrev pub find_reserved : String → List Reservation → Option Reservation
find_reserved saga [] = none
find_reserved saga (r ∷ rs) =
    ite (text_dec r.saga_id saga) (if is_reserved r.status then some r else find_reserved saga rs)
      (find_reserved saga rs)

-- The row WHERE saga_id = $1.
abbrev pub find_saga : String → List Reservation → Option Reservation
find_saga saga [] = none
find_saga saga (r ∷ rs) = ite (text_dec r.saga_id saga) (some r) (find_saga saga rs)

abbrev pub id_or_empty : Option Reservation → String
id_or_empty none = ""
id_or_empty (some r) = r.id

-- SELECT COALESCE((SELECT id::text FROM reservations WHERE ...), '').
unfoldable pub select_reserved_id : Postgres → String → Proc State String
unfolding cast_uuid
select_reserved_id pg saga_id = do
  saga ← cast_uuid pg saga_id
  gets λ d. id_or_empty (find_reserved saga d.reservations)

abbrev pub find_stock : String → List Stock → Option Stock
find_stock sku [] = none
find_stock sku (r ∷ rs) = ite (text_dec r.sku sku) (some r) (find_stock sku rs)

abbrev pub available_or_zero : Option Stock → ℤ
available_or_zero none = pos 0
available_or_zero (some r) = r.available

-- SELECT available FROM stock WHERE sku = $1 FOR UPDATE, with 0 for no row.
unfoldable pub select_available : String → Proc State ℤ
select_available sku = gets λ d. available_or_zero (find_stock sku d.stock)

-- SET available = available - $2, reserved = reserved + $2.
unfoldable pub take_units : ℤ → Stock → Stock
take_units n r = record r { available = r.available -ℤ n; reserved = r.reserved +ℤ n }

-- SET available = available + $2, reserved = reserved - $2.
unfoldable pub return_units : ℤ → Stock → Stock
return_units n r = record r { available = r.available +ℤ n; reserved = r.reserved -ℤ n }

abbrev pub set_stock : (Stock → Stock) → String → List Stock → List Stock
set_stock f sku [] = []
set_stock f sku (r ∷ rs) = ite (text_dec r.sku sku) (f r) r ∷ set_stock f sku rs

-- The new values of the rows fit their INT columns.
abbrev pub stock_fits : (Stock → Stock) → String → List Stock → Bool
stock_fits f sku [] = true
stock_fits f sku (r ∷ rs) =
    ite (text_dec r.sku sku) (fits_int (f r).available && fits_int (f r).reserved) true
    && stock_fits f sku rs

-- UPDATE stock SET ... WHERE sku = $1.
unfoldable pub update_stock : (Stock → Stock) → String → Proc State (Unit {0})
update_stock f sku d = elim (stock_fits f sku d.stock) [
  | true ↦ (ok tt, record d { stock = set_stock f sku d.stock })
  | false ↦ (throws int_out_of_range, d)
]

-- gen_random_uuid().
unfoldable pub draw_uuid : Postgres → Proc State String
draw_uuid pg d = (ok (pg.random_uuid d.drawn), record d { drawn = suc d.drawn })

-- INSERT INTO reservations ... ON CONFLICT (saga_id) DO UPDATE SET saga_id = EXCLUDED.saga_id
-- RETURNING id: a row that is there stays as it is.
unfoldable pub insert_reservation : Postgres → String → String → ℤ → Proc State String
unfolding cast_uuid draw_uuid
insert_reservation pg saga_id sku quantity = do
  saga ← cast_uuid pg saga_id
  id ← draw_uuid pg
  λ d. elim (find_saga saga d.reservations) [
    | some existing ↦ (ok existing.id, d)
    | none ↦ (
      ok id,
      record d {
        reservations =
            record {
              id = id;
              saga_id = saga;
              sku = sku;
              quantity = quantity;
              status = ReservationState.reserved;
            }
            ∷ d.reservations;
      },
    )
  ]

abbrev pub set_released : String → List Reservation → List Reservation
set_released saga [] = []
set_released saga (r ∷ rs) =
    ite (text_dec r.saga_id saga)
      (if is_reserved r.status then record r { status = ReservationState.released } else r) r
    ∷ set_released saga rs

-- UPDATE reservations SET status = 'RELEASED' WHERE saga_id = $1 AND status = 'RESERVED'
-- RETURNING sku, quantity: the first row returned.
unfoldable pub release_reservation : Postgres → String → Proc State (Option Reservation)
unfolding cast_uuid
release_reservation pg saga_id = do
  saga ← cast_uuid pg saga_id
  λ d. (
    ok (find_reserved saga d.reservations),
    record d { reservations = set_released saga d.reservations },
  )
