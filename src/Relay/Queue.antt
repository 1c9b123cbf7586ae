-- ===== src/Relay/Queue.antt =====
-- The pending rows in the order in which the relay takes them, when rows are marked published.
use choreography_saga_demo.Base.{
  ℕ, zero, suc, ◌≤◌, String, text_dec, ◌≡◌, refl, ap, ◌∙◌, ◌≢◌, inl, inr, Bool-cases, false, List,
  [], ◌∷◌, map, arith, ite, All, take, leb,
}
use choreography_saga_demo.Relay.Rows.{NotIn, UniqueIds}
use choreography_saga_demo.Relay.Batch.{IsSorted, order-IsSorted, rest, All-le}
use choreography_saga_demo.Relay.Send.{settle_published}
use choreography_saga_demo.Database.Tables.{OutboxRow}
use choreography_saga_demo.Database.OutboxSql.{
  update_row, set_published, select_pending, insert_by_time, order_by_time,
}
use choreography_saga_demo.Database.{record_of}

-- The pending rows, oldest first.
abbrev pub queue : List OutboxRow → List OutboxRow
queue rows = order_by_time (select_pending (λ _. false) rows)

abbrev remove : String → List OutboxRow → List OutboxRow
remove id [] = []
remove id (r ∷ rs) = ite (text_dec r.id id) (remove id rs) (r ∷ remove id rs)

abbrev remove_all : List OutboxRow → List OutboxRow → List OutboxRow
remove_all [] rows = rows
remove_all (x ∷ xs) rows = remove_all xs (remove x.id rows)

select-publish :
    (id : String) (now : ℕ) (rows : List OutboxRow)
    → select_pending (λ _. false) (update_row id (set_published now) rows)
      ≡ remove id (select_pending (λ _. false) rows)
select-publish id now [] = refl
select-publish id now (r ∷ rs) = ground (arith, select-publish id now rs)

remove-All_le :
    (a : ℕ) (id : String) (rows : List OutboxRow)
    → All (λ x. a ≤ x.created_at) rows
    → All (λ x. a ≤ x.created_at) (remove id rows)
remove-All_le a id [] h = tt
remove-All_le a id (r ∷ rs) h = ground (arith, remove-All_le a id rs h.1)

insert-least :
    (r : OutboxRow) (rows : List OutboxRow)
    → All (λ x. r.created_at ≤ x.created_at) rows
    → insert_by_time r rows ≡ r ∷ rows
insert-least r [] h = refl
insert-least r (x ∷ xs) h = ground arith

remove-insert_same :
    (r : OutboxRow) (rows : List OutboxRow) → remove r.id (insert_by_time r rows) ≡ remove r.id rows
remove-insert_same r [] = ground arith
remove-insert_same r (x ∷ xs) = ground (arith, remove-insert_same r xs)

remove-insert :
    (id : String) (r : OutboxRow) (rows : List OutboxRow)
    → r.id ≢ id
    → IsSorted rows
    → remove id (insert_by_time r rows) ≡ insert_by_time r (remove id rows)
remove-insert id r [] n s = ground arith
remove-insert id r (x ∷ xs) n s = elim (Bool-cases (leb r.created_at x.created_at)) [
  | inl before ↦
      let least : All (λ y. r.created_at ≤ y.created_at) (x ∷ xs) =
        (ground arith, All-le r.created_at x.created_at xs (ground arith) s.0) in
      rw
        (
          insert-least r (x ∷ xs) least,
          insert-least r (remove id (x ∷ xs)) (remove-All_le r.created_at id (x ∷ xs) least),
        )
        (ground arith)
  | inr after ↦ ground (arith, remove-insert id r xs n s.1)
]

order-remove :
    (id : String) (rows : List OutboxRow)
    → order_by_time (remove id rows) ≡ remove id (order_by_time rows)
order-remove id [] = refl
order-remove id (r ∷ rs) = elim (text_dec r.id id) [
  | yes same ↦ ground (arith, order-remove id rs, remove-insert_same r (order_by_time rs))
  | no other ↦
      ground
        (arith, order-remove id rs, remove-insert id r (order_by_time rs) other (order-IsSorted rs))
]

queue-settle :
    (now : ℕ) (xs rows : List OutboxRow)
    → queue (settle_published now (map record_of xs) rows) ≡ remove_all xs (queue rows)
queue-settle now [] rows = refl
queue-settle now (x ∷ xs) rows =
    queue-settle now xs (update_row x.id (set_published now) rows)
    ∙ ap (remove_all xs) (
        ap order_by_time (select-publish x.id now rows)
        ∙ order-remove x.id (select_pending (λ _. false) rows))

remove-missing : (id : String) (rows : List OutboxRow) → NotIn id rows → remove id rows ≡ rows
remove-missing id [] h = refl
remove-missing id (r ∷ rs) h = ground (arith, remove-missing id rs h.1)

remove_all-take :
    (n : ℕ) (rows : List OutboxRow) → UniqueIds rows → remove_all (take n rows) rows ≡ rest n rows
remove_all-take zero rows u = refl
remove_all-take (suc n) [] u = refl
remove_all-take (suc n) (r ∷ rs) u =
    ground (arith, remove-missing r.id rs u.0, remove_all-take n rs u.1)

-- Marking the first rows of the queue published leaves the others, in their order.
pub queue-batch :
    (now n : ℕ) (rows : List OutboxRow)
    → UniqueIds (queue rows)
    → queue (settle_published now (map record_of (take n (queue rows))) rows) ≡ rest n (queue rows)
queue-batch now n rows u =
    queue-settle now (take n (queue rows)) rows ∙ remove_all-take n (queue rows) u
