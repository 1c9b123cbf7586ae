-- ===== src/Relay/Rows.antt =====
-- The ids of outbox rows under selection, sorting and marking.
use choreography_saga_demo.Base.{
  ℕ, zero, suc, String, text_dec, ◌≡◌, refl, sym, ◌≢◌, inl, inr, Bool-cases, Bool, true, false, not,
  ◌&&◌, ◌||◌, List, [], ◌∷◌, arith, ite, All, length, take, leb,
}
use choreography_saga_demo.Database.Tables.{OutboxRow}
use choreography_saga_demo.Database.OutboxSql.{
  is_pending, select_pending, insert_by_time, order_by_time, count_rows,
}

abbrev pub NotIn : String → List OutboxRow → Type 0
NotIn id = All λ r. r.id ≢ id

abbrev pub UniqueIds : List OutboxRow → Type 0
UniqueIds [] = Unit
UniqueIds (r ∷ rs) = NotIn r.id rs × UniqueIds rs

-- There is a pending row of that id.
abbrev pub has_pending : String → List OutboxRow → Bool
has_pending id [] = false
has_pending id (r ∷ rs) =
    ite (text_dec r.id id) (is_pending r.status || has_pending id rs) (has_pending id rs)

module _ (locked : String → Bool) where
  select-NotIn :
      (id : String) (rows : List OutboxRow) → NotIn id rows → NotIn id (select_pending locked rows)
  select-NotIn id [] h = tt
  select-NotIn id (r ∷ rs) h = ground (arith, select-NotIn id rs h.1)

  pub select-UniqueIds :
      (rows : List OutboxRow) → UniqueIds rows → UniqueIds (select_pending locked rows)
  select-UniqueIds [] h = tt
  select-UniqueIds (r ∷ rs) h = ground (arith, select-NotIn r.id rs h.0, select-UniqueIds rs h.1)

insert-NotIn :
    (id : String) (r : OutboxRow) (rows : List OutboxRow)
    → r.id ≢ id
    → NotIn id rows
    → NotIn id (insert_by_time r rows)
insert-NotIn id r [] n h = (n, tt)
insert-NotIn id r (x ∷ xs) n h = ground (arith, insert-NotIn id r xs n h.1)

insert-UniqueIds :
    (r : OutboxRow) (rows : List OutboxRow)
    → NotIn r.id rows
    → UniqueIds rows
    → UniqueIds (insert_by_time r rows)
insert-UniqueIds r [] n h = (tt, tt)
insert-UniqueIds r (x ∷ xs) n h =
    ground (arith, insert-NotIn x.id r xs (λ e. n.0 (sym e)) h.0, insert-UniqueIds r xs n.1 h.1)

order-NotIn : (id : String) (rows : List OutboxRow) → NotIn id rows → NotIn id (order_by_time rows)
order-NotIn id [] h = tt
order-NotIn id (r ∷ rs) h = insert-NotIn id r (order_by_time rs) h.0 (order-NotIn id rs h.1)

pub order-UniqueIds : (rows : List OutboxRow) → UniqueIds rows → UniqueIds (order_by_time rows)
order-UniqueIds [] h = tt
order-UniqueIds (r ∷ rs) h =
    insert-UniqueIds r (order_by_time rs) (order-NotIn r.id rs h.0) (order-UniqueIds rs h.1)

take-NotIn : (id : String) (n : ℕ) (rows : List OutboxRow) → NotIn id rows → NotIn id (take n rows)
take-NotIn id zero rows h = tt
take-NotIn id (suc n) [] h = tt
take-NotIn id (suc n) (r ∷ rs) h = (h.0, take-NotIn id n rs h.1)

pub take-UniqueIds : (n : ℕ) (rows : List OutboxRow) → UniqueIds rows → UniqueIds (take n rows)
take-UniqueIds zero rows h = tt
take-UniqueIds (suc n) [] h = tt
take-UniqueIds (suc n) (r ∷ rs) h = (take-NotIn r.id n rs h.0, take-UniqueIds n rs h.1)

-- A property of all rows holds of those that the relay is given.
module _ (Q : OutboxRow → Type 0) where
  pub select-All :
      (locked : String → Bool) (rows : List OutboxRow)
      → All Q rows
      → All Q (select_pending locked rows)
  select-All locked [] h = tt
  select-All locked (r ∷ rs) h = elim (Bool-cases (is_pending r.status && not (locked r.id))) [
    | inl e ↦ rw e (h.0, select-All locked rs h.1)
    | inr e ↦ rw e (select-All locked rs h.1)
  ]

  insert-All :
      (r : OutboxRow) (rows : List OutboxRow) → Q r → All Q rows → All Q (insert_by_time r rows)
  insert-All r [] q h = (q, tt)
  insert-All r (x ∷ xs) q h = elim (Bool-cases (leb r.created_at x.created_at)) [
    | inl e ↦ rw e (q, (h.0, h.1))
    | inr e ↦ rw e (h.0, insert-All r xs q h.1)
  ]

  pub order-All : (rows : List OutboxRow) → All Q rows → All Q (order_by_time rows)
  order-All [] h = tt
  order-All (r ∷ rs) h = insert-All r (order_by_time rs) h.0 (order-All rs h.1)

  pub take-All : (n : ℕ) (rows : List OutboxRow) → All Q rows → All Q (take n rows)
  take-All zero rows h = tt
  take-All (suc n) [] h = tt
  take-All (suc n) (r ∷ rs) h = (h.0, take-All n rs h.1)

-- Each selected row is pending under its id.
has_pending-cons :
    (r : OutboxRow) (rows xs : List OutboxRow)
    → All (λ x. has_pending x.id rows ≡ true) xs
    → All (λ x. has_pending x.id (r ∷ rows) ≡ true) xs
has_pending-cons r rows [] h = tt
has_pending-cons r rows (x ∷ xs) h = ground (arith, has_pending-cons r rows xs h.1)

has_pending-head :
    (held : Bool) (r : OutboxRow) (rows : List OutboxRow)
    → (is_pending r.status && not held) ≡ true
    → has_pending r.id (r ∷ rows) ≡ true
has_pending-head held r rows h = ground arith

pub select-has_pending :
    (locked : String → Bool) (rows : List OutboxRow)
    → All (λ x. has_pending x.id rows ≡ true) (select_pending locked rows)
select-has_pending locked [] = tt
select-has_pending locked (r ∷ rs) =
    let rest : All (λ x. has_pending x.id (r ∷ rs) ≡ true) (select_pending locked rs) =
      has_pending-cons r rs (select_pending locked rs) (select-has_pending locked rs) in
    elim (Bool-cases (is_pending r.status && not (locked r.id))) [
      | inl e ↦ rw e (has_pending-head (locked r.id) r rs e, rest)
      | inr e ↦ rw e rest
    ]

length-insert_by_time :
    (r : OutboxRow) (rows : List OutboxRow) → length (insert_by_time r rows) ≡ suc (length rows)
length-insert_by_time r [] = refl
length-insert_by_time r (x ∷ xs) = ground (arith, length-insert_by_time r xs)

pub length-order_by_time : (rows : List OutboxRow) → length (order_by_time rows) ≡ length rows
length-order_by_time [] = refl
length-order_by_time (r ∷ rs) =
    omega (arith, length-insert_by_time r (order_by_time rs), length-order_by_time rs)

-- With no row locked, all pending rows are selected.
pub length-select_pending :
    (rows : List OutboxRow) → length (select_pending (λ _. false) rows) ≡ count_rows rows
length-select_pending [] = refl
length-select_pending (r ∷ rs) = ground (arith, length-select_pending rs)
