-- ===== src/Relay/Progress.antt =====
-- Passes of the relay with a publisher that accepts every message.
use choreography_saga_demo.Base.{
  ℕ, zero, suc, ◌+◌, ◌*◌, ◌≤◌, String, ◌≡◌, refl, ap, ◌∙◌, ◌≢◌, Bool, true, false, List, [], ◌∷◌,
  map, none, arith, All, length, length-take,
}
use Prim.Native.Nat.{min}
use choreography_saga_demo.Base.Int.{ℤ}
use choreography_saga_demo.Base.Outcome.{ok}
use choreography_saga_demo.Outbox.{Record, Publisher, Message, message_of}
use choreography_saga_demo.Relay.{World, drain_once, relay_rounds}
use choreography_saga_demo.Relay.Send.{
  accepted, refused, settle_published, AttemptsLeft, AttemptsLeft-published,
}
use choreography_saga_demo.Relay.Rows.{
  NotIn, UniqueIds, has_pending, select-UniqueIds, order-UniqueIds, take-UniqueIds,
  select-has_pending, order-All, take-All, length-order_by_time, length-select_pending,
}
use choreography_saga_demo.Relay.Pass.{
  length-map_record, batch, batch_rows, CanonicalIds, drain_once-send,
}
use choreography_saga_demo.Database.Tables.{Postgres, OutboxRow, State}
use choreography_saga_demo.Database.OutboxSql.{
  update_row, set_published, count_rows, select_pending, order_by_time,
}
use choreography_saga_demo.Database.{record_of, outbox_repo}

-- No message is refused.
abbrev pub Accepts : {P : Type 0} → Publisher P → Type 0
Accepts {P} publisher = (m : Message) (p : P) → (publisher.publish m p).0 ≡ ok tt

pub accepted-all :
    {P : Type 0} (publisher : Publisher P) (rows : List Record) (p : P)
    → Accepts publisher
    → (accepted publisher rows p ≡ rows) × (refused publisher rows p ≡ none)
accepted-all publisher [] p h = (refl, refl)
accepted-all publisher (rec ∷ rows) p h = ground (
  arith,
  h (message_of rec) p,
  accepted-all publisher rows (publisher.publish (message_of rec) p).1 h,
)

-- Marking the one pending row of an id takes one off the pending rows.
update_row-missing :
    (id : String) (f : OutboxRow → OutboxRow) (rows : List OutboxRow)
    → NotIn id rows
    → update_row id f rows ≡ rows
update_row-missing id f [] h = refl
update_row-missing id f (r ∷ rs) h = ground (arith, update_row-missing id f rs h.1)

NotIn-subst : (a b : String) (rows : List OutboxRow) → a ≡ b → NotIn a rows → NotIn b rows
NotIn-subst a b rows e h = rw (← e) h

has_pending-missing :
    (id : String) (rows : List OutboxRow) → NotIn id rows → has_pending id rows ≡ false
has_pending-missing id [] h = refl
has_pending-missing id (r ∷ rs) h = ground (arith, has_pending-missing id rs h.1)

count_rows-publish :
    (id : String) (now : ℕ) (rows : List OutboxRow)
    → UniqueIds rows
    → has_pending id rows ≡ true
    → count_rows (update_row id (set_published now) rows) + 1 ≡ count_rows rows
count_rows-publish id now [] u h = cc
count_rows-publish id now (r ∷ rs) u h = ground (
  arith,
  NotIn-subst r.id id rs,
  has_pending-missing id rs,
  update_row-missing id (set_published now) rs,
  count_rows-publish id now rs u.1,
)

has_pending-publish :
    (other id : String) (now : ℕ) (rows : List OutboxRow)
    → other ≢ id
    → has_pending other (update_row id (set_published now) rows) ≡ has_pending other rows
has_pending-publish other id now [] n = refl
has_pending-publish other id now (r ∷ rs) n = ground (arith, has_pending-publish other id now rs n)

pub update_row-NotIn :
    (other id : String) (now : ℕ) (rows : List OutboxRow)
    → NotIn other rows
    → NotIn other (update_row id (set_published now) rows)
update_row-NotIn other id now [] h = tt
update_row-NotIn other id now (r ∷ rs) h = ground (arith, update_row-NotIn other id now rs h.1)

update_row-UniqueIds :
    (id : String) (now : ℕ) (rows : List OutboxRow)
    → UniqueIds rows
    → UniqueIds (update_row id (set_published now) rows)
update_row-UniqueIds id now [] h = tt
update_row-UniqueIds id now (r ∷ rs) h =
    ground (arith, update_row-NotIn r.id id now rs h.0, update_row-UniqueIds id now rs h.1)

All-has_pending-publish :
    (id : String) (now : ℕ) (rows xs : List OutboxRow)
    → NotIn id xs
    → All (λ x. has_pending x.id rows ≡ true) xs
    → All (λ x. has_pending x.id (update_row id (set_published now) rows) ≡ true) xs
All-has_pending-publish id now rows [] n h = tt
All-has_pending-publish id now rows (x ∷ xs) n h =
    (has_pending-publish x.id id now rows n.0 ∙ h.0, All-has_pending-publish id now rows xs n.1 h.1)

-- Settling a batch of distinct pending rows takes that many off the pending rows.
count_rows-settle :
    (now : ℕ) (xs rows : List OutboxRow)
    → UniqueIds xs
    → UniqueIds rows
    → All (λ x. has_pending x.id rows ≡ true) xs
    → count_rows (settle_published now (map record_of xs) rows) + length xs ≡ count_rows rows
count_rows-settle now [] rows ux ur h = omega arith
count_rows-settle now (x ∷ xs) rows ux ur h = omega (
  arith,
  count_rows-publish x.id now rows ur h.0,
  count_rows-settle now xs (update_row x.id (set_published now) rows) ux.1
      (update_row-UniqueIds x.id now rows ur) (All-has_pending-publish x.id now rows xs ux.0 h.1),
)

-- The outbox rows have distinct, valid ids, and attempts left to count.
pub record IsReady (pg : Postgres) (rows : List OutboxRow) : Type 0 where
  pub unique : UniqueIds rows
  pub canonical : CanonicalIds pg rows
  pub left : AttemptsLeft rows

update_row-CanonicalIds :
    (pg : Postgres) (id : String) (now : ℕ) (rows : List OutboxRow)
    → CanonicalIds pg rows
    → CanonicalIds pg (update_row id (set_published now) rows)
update_row-CanonicalIds pg id now [] h = tt
update_row-CanonicalIds pg id now (r ∷ rs) h =
    ground (arith, update_row-CanonicalIds pg id now rs h.1)

settle-IsReady :
    (pg : Postgres) (now : ℕ) (recs : List Record) (rows : List OutboxRow)
    → IsReady pg rows
    → IsReady pg (settle_published now recs rows)
settle-IsReady pg now [] rows h = h
settle-IsReady pg now (rec ∷ recs) rows h =
    settle-IsReady pg now recs (update_row rec.id (set_published now) rows) (record {
      unique = update_row-UniqueIds rec.id now rows h.unique;
      canonical = update_row-CanonicalIds pg rec.id now rows h.canonical;
      left = AttemptsLeft-published rec.id now rows h.left;
    })

abbrev pub nothing_locked : String → Bool
nothing_locked _ = false

module _ {P : Type 0} (pg : Postgres) (publisher : Publisher P) (clock : ℕ → ℕ) (size : ℤ)
    (accepts : Accepts publisher) where
  length-batch :
      (d : State)
      → length (batch_rows nothing_locked (batch size) d) ≡ min (batch size) (count_rows d.outbox)
  length-batch d = rw (
    length-take (batch size) (order_by_time (select_pending nothing_locked d.outbox)),
    length-order_by_time (select_pending nothing_locked d.outbox),
    length-select_pending d.outbox,
  )

  count_rows-batch :
      (d : State)
      → UniqueIds d.outbox
      → count_rows (
            settle_published d.now
              (map record_of (batch_rows nothing_locked (batch size) d))
              d.outbox)
          + min (batch size) (count_rows d.outbox)
        ≡ count_rows d.outbox
  count_rows-batch d u =
      let selected : List OutboxRow = select_pending nothing_locked d.outbox in
      rw (← length-batch d) (
        count_rows-settle d.now (batch_rows nothing_locked (batch size) d) d.outbox
          (take-UniqueIds (batch size) (order_by_time selected)
            (order-UniqueIds selected (select-UniqueIds nothing_locked d.outbox u)))
          u
          (take-All (λ x. has_pending x.id d.outbox ≡ true) (batch size) (order_by_time selected)
            (order-All (λ x. has_pending x.id d.outbox ≡ true) selected
              (select-has_pending nothing_locked d.outbox))))

  -- With a publisher that accepts every message and no row locked, a pass over an outbox that is ready
  -- (row ids are valid and distinct, and attempts can be counted) returns how many rows it published, a
  -- full batch or all that are pending; so many fewer are pending afterwards, and it is still ready.
  pub drain_once-progress :
      (w : World State P)
      → IsReady pg w.repo.outbox
      → let (r, w') = drain_once (outbox_repo pg nothing_locked) publisher clock size w in
        let published : ℕ = min (batch size) (count_rows w.repo.outbox) in
        (r ≡ ok published)
        × (count_rows w'.repo.outbox + published ≡ count_rows w.repo.outbox)
        × IsReady pg w'.repo.outbox
  drain_once-progress w h =
      let recs : List Record = map record_of (batch_rows nothing_locked (batch size) w.repo) in
      rw
        (
          drain_once-send pg nothing_locked publisher clock size w h.canonical h.left,
          (accepted-all publisher recs w.publisher accepts).1,
          (accepted-all publisher recs w.publisher accepts).0,
        )
        (
          ap ok (
              length-map_record (batch_rows nothing_locked (batch size) w.repo)
              ∙ length-batch w.repo),
          count_rows-batch w.repo h.unique,
          settle-IsReady pg w.repo.now recs w.repo.outbox h,
        )

  pub relay_rounds-drains :
      (rounds : ℕ) (w : World State P)
      → IsReady pg w.repo.outbox
      → count_rows w.repo.outbox ≤ rounds * batch size
      → count_rows
          (relay_rounds (outbox_repo pg nothing_locked) publisher clock size rounds w).repo.outbox
        ≡ 0
  unfolding relay_rounds
  relay_rounds-drains zero w h enough = omega arith
  relay_rounds-drains (suc rounds) w h enough =
      let w' : World State P =
        (drain_once (outbox_repo pg nothing_locked) publisher clock size w).1 in
      let progress = drain_once-progress w h in
      relay_rounds-drains rounds w' progress.2 (omega (arith, progress.1, enough))
