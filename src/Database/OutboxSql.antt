-- ===== src/Database/OutboxSql.antt =====
-- The SQL statements of services/inventory/src/db.cpp on the table outbox.
use choreography_saga_demo.Base.{
  ℕ, suc, String, text_dec, Bool, true, false, not, ◌&&◌, List, [], ◌∷◌, ◌++◌, none, some, ite, leb,
  if◌then◌else◌, take,
}
use choreography_saga_demo.Base.Int.{ℤ, pos, negsuc, ◌+ℤ◌, fits_int}
use choreography_saga_demo.Base.Outcome.{
  ok, throws, Proc, ◌>>=◌, pure, throw, invalid_json, negative_limit,
}
use choreography_saga_demo.Outbox.{Insert}
use choreography_saga_demo.Database.Tables.{Postgres, OutboxStatus, OutboxRow, State}
use choreography_saga_demo.Database.Sql.{draw_uuid}

-- A new row for the event `ob`, whose payload PostgreSQL writes as `payload`.
abbrev pub new_row : Insert → String → ℕ → String → OutboxRow
new_row ob payload now id = record {
  id = id;
  aggregate_type = ob.aggregate_type;
  aggregate_id = ob.aggregate_id;
  event_type = ob.event_type;
  topic = ob.topic;
  payload = payload;
  traceparent = ob.traceparent;
  status = OutboxStatus.pending;
  attempts = pos 0;
  created_at = now;
  published_at = none;
}

-- INSERT INTO outbox.
unfoldable pub insert_outbox : Postgres → Insert → Proc State (Unit {0})
unfolding draw_uuid
insert_outbox pg ob = do
  id ← draw_uuid pg
  λ d. elim (pg.jsonb_cast ob.payload) [
    | none ↦ (throws invalid_json, d)
    | some payload ↦ (ok tt, record d { outbox = d.outbox ++ new_row ob payload d.now id ∷ [] })
  ]

abbrev pub is_pending : OutboxStatus → Bool
is_pending OutboxStatus.pending = true
is_pending OutboxStatus.published = false

-- WHERE status = 'PENDING' FOR UPDATE SKIP LOCKED; `locked` says which rows other sessions hold.
abbrev pub select_pending : (String → Bool) → List OutboxRow → List OutboxRow
select_pending locked [] = []
select_pending locked (r ∷ rs) =
    if is_pending r.status && not (locked r.id)
    then r ∷ select_pending locked rs
    else select_pending locked rs

-- ORDER BY created_at; rows of one time stand in the order of their insertion.
abbrev pub insert_by_time : OutboxRow → List OutboxRow → List OutboxRow
insert_by_time r [] = r ∷ []
insert_by_time r (x ∷ xs) =
    if leb r.created_at x.created_at then r ∷ x ∷ xs else x ∷ insert_by_time r xs

abbrev pub order_by_time : List OutboxRow → List OutboxRow
order_by_time [] = []
order_by_time (r ∷ rs) = insert_by_time r (order_by_time rs)

-- LIMIT $1.
unfoldable pub limit_rows : ℤ → List OutboxRow → Proc State (List OutboxRow)
limit_rows (pos n) rows = pure (take n rows)
limit_rows (negsuc n) rows = throw negative_limit

abbrev pub update_row : String → (OutboxRow → OutboxRow) → List OutboxRow → List OutboxRow
update_row id f [] = []
update_row id f (r ∷ rs) = ite (text_dec r.id id) (f r) r ∷ update_row id f rs

-- SET status = 'PUBLISHED', published_at = now().
abbrev pub set_published : ℕ → OutboxRow → OutboxRow
set_published now r = record r { status = OutboxStatus.published; published_at = some now }

-- SET attempts = attempts + 1.
abbrev pub set_attempted : OutboxRow → OutboxRow
set_attempted r = record r { attempts = r.attempts +ℤ pos 1 }

-- The new `attempts` of the rows fit their INT column.
abbrev pub attempts_fit : String → List OutboxRow → Bool
attempts_fit id [] = true
attempts_fit id (r ∷ rs) =
    ite (text_dec r.id id) (fits_int (set_attempted r).attempts) true && attempts_fit id rs

abbrev pub count_rows : List OutboxRow → ℕ
count_rows [] = 0
count_rows (r ∷ rs) = if is_pending r.status then suc (count_rows rs) else count_rows rs
