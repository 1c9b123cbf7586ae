-- ===== src/Relay/Pass.antt =====
-- One pass of the relay over Database.
use choreography_saga_demo.Base.{
  ℕ, suc, ◌≤◌, String, ◌≡◌, refl, ap, Bool, List, [], ◌∷◌, map, some, arith, All, length, take,
}
use choreography_saga_demo.Base.Int.{ℤ, pos, pos_part}
use choreography_saga_demo.Outbox.{Record, Publisher}
use choreography_saga_demo.Relay.{World, batch_size, drain_once}
use choreography_saga_demo.Relay.Send.{
  refused, sent_state, answer, settled, AttemptsLeft, Fetched, publish_all-send,
}
use choreography_saga_demo.Relay.Rows.{select-All, order-All, take-All}
use choreography_saga_demo.Database.Tables.{Postgres, OutboxRow, State}
use choreography_saga_demo.Database.OutboxSql.{select_pending, order_by_time}
use choreography_saga_demo.Database.{record_of, fetch_pending, outbox_repo}

-- The batch size as a number.
abbrev pub batch : ℤ → ℕ
batch size = pos_part (batch_size size)

-- A relay never asks for no rows at all, nor for fewer.
pub batch-pos : (size : ℤ) → (batch_size size ≡ pos (batch size)) × (1 ≤ batch size)
unfolding batch_size
batch-pos size = ground arith

-- The rows of one batch.
abbrev pub batch_rows : (String → Bool) → ℕ → State → List OutboxRow
batch_rows locked n d = take n (order_by_time (select_pending locked d.outbox))

-- The row ids are UUIDs as PostgreSQL writes them.
abbrev pub CanonicalIds : Postgres → List OutboxRow → Type 0
CanonicalIds pg = All λ r. pg.uuid_cast r.id ≡ some r.id

map-Fetched :
    (pg : Postgres) (rows : List OutboxRow) → CanonicalIds pg rows → Fetched pg (map record_of rows)
map-Fetched pg [] h = tt
map-Fetched pg (r ∷ rs) h = ((h.0, refl), map-Fetched pg rs h.1)

pub length-map_record : (rows : List OutboxRow) → length (map record_of rows) ≡ length rows
length-map_record [] = refl
length-map_record (r ∷ rs) = ap suc (length-map_record rs)

pub batch_rows-Fetched :
    (pg : Postgres) (locked : String → Bool) (n : ℕ) (d : State)
    → CanonicalIds pg d.outbox
    → Fetched pg (map record_of (batch_rows locked n d))
batch_rows-Fetched pg locked n d h = map-Fetched pg (batch_rows locked n d) (
    take-All Q n (order_by_time (select_pending locked d.outbox))
      (order-All Q (select_pending locked d.outbox) (select-All Q locked d.outbox h)))
  where
    Q : OutboxRow → Type 0
    Q r = pg.uuid_cast r.id ≡ some r.id

-- The ids of all outbox rows are UUIDs in PostgreSQL's own spelling, and each row has counted
-- between 0 and 2147483646 attempts. Then a pass over Database sends the messages of the oldest
-- unlocked pending rows in the order of their creation, up to the first that the publisher refuses.
-- The rows of those sent are marked published; the row of the refused one, if there is one, counts
-- an attempt more, and its exception is the pass's. If none is refused, the pass returns the number
-- of rows of the batch. Nothing else in the database changes.
pub drain_once-send :
    {P : Type 0} (pg : Postgres) (locked : String → Bool) (publisher : Publisher P) (clock : ℕ → ℕ)
    (size : ℤ) (w : World State P)
    → CanonicalIds pg w.repo.outbox
    → AttemptsLeft w.repo.outbox
    → let rows : List Record = map record_of (batch_rows locked (batch size) w.repo) in
      drain_once (outbox_repo pg locked) publisher clock size w ≡ (
        answer (length rows) (refused publisher rows w.publisher),
        record w {
          repo = settled pg locked publisher clock rows w.publisher w.repo;
          publisher = sent_state publisher rows w.publisher;
        },
      )
unfolding drain_once fetch_pending
drain_once-send pg locked publisher clock size w canonical left = ground (
  arith,
  batch-pos size,
  publish_all-send pg locked publisher clock (map record_of (batch_rows locked (batch size) w.repo))
      0 w (batch_rows-Fetched pg locked (batch size) w.repo canonical) left,
)
