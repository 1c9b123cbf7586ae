-- ===== src/Relay/Batch.antt =====
-- The batch that fetch_pending hands to the relay.
use mathlib.Core.List.{Perm}
use mathlib.Core.List.Perm
use choreography_saga_demo.Base.{
  ℕ, zero, suc, ◌≤◌, String, ◌≡◌, refl, ap, ◌⊎◌, inl, inr, Bool, Bool-cases, List, [], ◌∷◌, ◌++◌,
  map, arith, All, length, take, leb,
}
use choreography_saga_demo.Base.Int.{pos}
use choreography_saga_demo.Base.Outcome.{ok}
use choreography_saga_demo.Relay.Rows.{take-All}
use choreography_saga_demo.Database.Tables.{OutboxRow, State}
use choreography_saga_demo.Database.OutboxSql.{select_pending, insert_by_time, order_by_time}
use choreography_saga_demo.Database.{record_of, fetch_pending}

-- Oldest first.
abbrev pub IsSorted : List OutboxRow → Type 0
IsSorted [] = Unit
IsSorted (r ∷ rs) = All (λ x. r.created_at ≤ x.created_at) rs × IsSorted rs

pub All-le :
    (a b : ℕ) (rows : List OutboxRow)
    → a ≤ b
    → All (λ x. b ≤ x.created_at) rows
    → All (λ x. a ≤ x.created_at) rows
All-le a b [] h k = tt
All-le a b (r ∷ rs) h k = (omega arith, All-le a b rs h k.1)

insert-All_le :
    (a : ℕ) (r : OutboxRow) (rows : List OutboxRow)
    → a ≤ r.created_at
    → All (λ x. a ≤ x.created_at) rows
    → All (λ x. a ≤ x.created_at) (insert_by_time r rows)
insert-All_le a r [] h k = (h, tt)
insert-All_le a r (x ∷ xs) h k = ground (arith, insert-All_le a r xs h k.1)

insert-IsSorted :
    (r : OutboxRow) (rows : List OutboxRow) → IsSorted rows → IsSorted (insert_by_time r rows)
insert-IsSorted r [] h = (tt, tt)
insert-IsSorted r (x ∷ xs) h = ground (
  arith,
  insert-IsSorted r xs h.1,
  All-le r.created_at x.created_at xs,
  insert-All_le x.created_at r xs,
)

pub order-IsSorted : (rows : List OutboxRow) → IsSorted (order_by_time rows)
order-IsSorted [] = tt
order-IsSorted (r ∷ rs) = insert-IsSorted r (order_by_time rs) (order-IsSorted rs)

insert-perm : (r : OutboxRow) (rows : List OutboxRow) → Perm (insert_by_time r rows) (r ∷ rows)
insert-perm r [] = Perm.refl (r ∷ [])
insert-perm r (x ∷ xs) = elim (Bool-cases (leb r.created_at x.created_at)) [
  | inl e ↦ rw e (Perm.refl (r ∷ x ∷ xs))
  | inr e ↦ rw e (Perm.trans (Perm.cons x (insert-perm r xs)) (Perm.swap r x xs))
]

order-perm : (rows : List OutboxRow) → Perm (order_by_time rows) rows
order-perm [] = Perm.refl []
order-perm (r ∷ rs) = Perm.trans (insert-perm r (order_by_time rs)) (Perm.cons r (order-perm rs))

-- The rows that a limit leaves out.
abbrev pub rest : ℕ → List OutboxRow → List OutboxRow
rest zero rows = rows
rest (suc n) [] = []
rest (suc n) (r ∷ rs) = rest n rs

pub take-rest : (n : ℕ) (rows : List OutboxRow) → take n rows ++ rest n rows ≡ rows
take-rest zero rows = refl
take-rest (suc n) [] = refl
take-rest (suc n) (r ∷ rs) = ap (λ t. r ∷ t) (take-rest n rs)

rest-All :
    (Q : OutboxRow → Type 0) (n : ℕ) (rows : List OutboxRow) → All Q rows → All Q (rest n rows)
rest-All Q zero rows h = h
rest-All Q (suc n) [] h = tt
rest-All Q (suc n) (r ∷ rs) h = rest-All Q n rs h.1

take-IsSorted : (n : ℕ) (rows : List OutboxRow) → IsSorted rows → IsSorted (take n rows)
take-IsSorted zero rows h = tt
take-IsSorted (suc n) [] h = tt
take-IsSorted (suc n) (r ∷ rs) h =
    (take-All (λ x. r.created_at ≤ x.created_at) n rs h.0, take-IsSorted n rs h.1)

take-le-rest :
    (n : ℕ) (rows : List OutboxRow)
    → IsSorted rows
    → All (λ r. All (λ x. r.created_at ≤ x.created_at) (rest n rows)) (take n rows)
take-le-rest zero rows h = tt
take-le-rest (suc n) [] h = tt
take-le-rest (suc n) (r ∷ rs) h =
    (rest-All (λ x. r.created_at ≤ x.created_at) n rs h.0, take-le-rest n rs h.1)

take_full : (n : ℕ) (rows : List OutboxRow) → (rest n rows ≡ []) ⊎ (length (take n rows) ≡ n)
take_full zero rows = inr refl
take_full (suc n) [] = inl refl
take_full (suc n) (r ∷ rs) = ground (arith, take_full n rs)

-- What a fetch of at most `n` rows returns: some rows, oldest first, that together with `left` are
-- exactly the pending unlocked rows; each is as old as any row left; and none is left unless `n` are
-- returned.
pub record IsBatch (locked : String → Bool) (n : ℕ) (d : State) (rows left : List OutboxRow)
    : Type 0 where
  pub all : Perm (rows ++ left) (select_pending locked d.outbox)
  pub sorted : IsSorted rows
  pub oldest : All (λ r. All (λ x. r.created_at ≤ x.created_at) left) rows
  pub full : (left ≡ []) ⊎ (length rows ≡ n)

-- A fetch of at most `n` rows changes nothing and returns the records of a batch: with the rows left
-- over it makes up the unlocked pending rows, each once; it is in the order of creation; no row left
-- over is older than one of it; and it has `n` rows unless none are left over.
pub fetch_oldest :
    (locked : String → Bool) (n : ℕ) (d : State)
    → (rows : List OutboxRow) × (left : List OutboxRow) × (fetch_pending locked (pos n) d
        ≡ (ok (map record_of rows), d))
      × IsBatch locked n d rows left
unfolding fetch_pending
fetch_oldest locked n d =
    let sorted : List OutboxRow = order_by_time (select_pending locked d.outbox) in
    (
      take n sorted,
      rest n sorted,
      refl,
      record {
        all = rw (take-rest n sorted) (order-perm (select_pending locked d.outbox));
        sorted = take-IsSorted n sorted (order-IsSorted (select_pending locked d.outbox));
        oldest = take-le-rest n sorted (order-IsSorted (select_pending locked d.outbox));
        full = take_full n sorted;
      },
    )
