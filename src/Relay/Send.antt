-- ===== src/Relay/Send.antt =====
-- What the loop of the relay over Database comes to: the messages that are accepted, the one that is
-- refused, and their rows.
use choreography_saga_demo.Base.{
  ℕ, ◌+◌, String, ◌≡◌, refl, inl, inr, Bool, true, List, [], ◌∷◌, Option, none, some, arith, All,
  length,
}
use choreography_saga_demo.Base.Int.{pos, ◌+ℤ◌, ◌≤ℤ◌}
use choreography_saga_demo.Base.Outcome.{Error, Outcome, ok, throws, Outcome-cases}
use choreography_saga_demo.Outbox.{Record, Publisher, message_of}
use choreography_saga_demo.Relay.{World, publish_all}
use choreography_saga_demo.Database.Tables.{Postgres, OutboxRow, State}
use choreography_saga_demo.Database.OutboxSql.{
  update_row, set_published, set_attempted, attempts_fit,
}
use choreography_saga_demo.Database.{mark_published, mark_failed, outbox_repo}

module _ {P : Type 0} (publisher : Publisher P) where
  -- The records whose messages are accepted, up to the first that is refused.
  abbrev pub accepted : List Record → P → List Record
  accepted [] p = []
  accepted (rec ∷ rows) p =
      let (r, p') = publisher.publish (message_of rec) p in
      elim r [ ok _ ↦ rec ∷ accepted rows p' | throws e ↦ [] ]

  -- The first record that is refused, and why.
  abbrev pub refused : List Record → P → Option (Record × Error)
  refused [] p = none
  refused (rec ∷ rows) p =
      let (r, p') = publisher.publish (message_of rec) p in
      elim r [ ok _ ↦ refused rows p' | throws e ↦ some (rec, e) ]

  -- The publisher afterwards.
  abbrev pub sent_state : List Record → P → P
  sent_state [] p = p
  sent_state (rec ∷ rows) p =
      let (r, p') = publisher.publish (message_of rec) p in
      elim r [ ok _ ↦ sent_state rows p' | throws e ↦ p' ]

abbrev pub settle_published : ℕ → List Record → List OutboxRow → List OutboxRow
settle_published now [] rows = rows
settle_published now (rec ∷ recs) rows =
    settle_published now recs (update_row rec.id (set_published now) rows)

abbrev pub settle_refused : Option (Record × Error) → List OutboxRow → List OutboxRow
settle_refused none rows = rows
settle_refused (some (rec, e)) rows = update_row rec.id set_attempted rows

abbrev pub answer : ℕ → Option (Record × Error) → Outcome ℕ
answer n none = ok n
answer n (some (rec, e)) = throws e

-- The rows can be counted one attempt more.
abbrev pub AttemptsLeft : List OutboxRow → Type 0
AttemptsLeft = All λ r. (pos 0 ≤ℤ r.attempts) × (r.attempts ≤ℤ pos 2147483646)

AttemptsLeft-fit :
    (id : String) (rows : List OutboxRow) → AttemptsLeft rows → attempts_fit id rows ≡ true
unfolding ◌+ℤ◌
AttemptsLeft-fit id [] h = refl
AttemptsLeft-fit id (r ∷ rows) h = ground (arith, AttemptsLeft-fit id rows h.1)

pub AttemptsLeft-published :
    (id : String) (now : ℕ) (rows : List OutboxRow)
    → AttemptsLeft rows
    → AttemptsLeft (update_row id (set_published now) rows)
AttemptsLeft-published id now [] h = tt
AttemptsLeft-published id now (r ∷ rows) h = ground (arith, AttemptsLeft-published id now rows h.1)

-- What the relay is handed by Database: a valid row id, and no creation time.
abbrev pub Fetched : Postgres → List Record → Type 0
Fetched pg = All λ rec. (pg.uuid_cast rec.id ≡ some rec.id) × (rec.created_at ≡ 0)

module _ {P : Type 0} (pg : Postgres) (locked : String → Bool) (publisher : Publisher P)
    (clock : ℕ → ℕ) where
  -- The database after the loop over `rows`.
  abbrev pub settled : List Record → P → State → State
  settled rows p d = record d {
    outbox =
        settle_refused (refused publisher rows p)
          (settle_published d.now (accepted publisher rows p) d.outbox);
  }

  pub publish_all-send :
      (rows : List Record) (n : ℕ) (w : World State P)
      → Fetched pg rows
      → AttemptsLeft w.repo.outbox
      → publish_all (outbox_repo pg locked) publisher clock rows n w ≡ (
        answer (n + length rows) (refused publisher rows w.publisher),
        record w {
          repo = settled rows w.publisher w.repo;
          publisher = sent_state publisher rows w.publisher;
        },
      )
  unfolding publish_all mark_published mark_failed
  publish_all-send [] n w h a = ground arith
  publish_all-send (rec ∷ rows) n w h a =
      elim (Outcome-cases (publisher.publish (message_of rec) w.publisher).0) [
        | inl (e, x) ↦ ground (arith, AttemptsLeft-fit rec.id w.repo.outbox a)
        | inr (t, x) ↦ ground (
          arith,
          AttemptsLeft-published rec.id w.repo.now w.repo.outbox a,
          publish_all-send rows (n + 1)
              (record w {
                repo = record w.repo {
                  outbox = update_row rec.id (set_published w.repo.now) w.repo.outbox;
                };
                publisher = (publisher.publish (message_of rec) w.publisher).1;
              })
              h.1,
        )
      ]
