-- ===== src/Relay/Threads.antt =====
-- The relay's thread and the calls of the other threads on one Database, interleaved. A call on the
-- database is one step, since its mutex is held throughout; so is a call of the publisher.
use choreography_saga_demo.Base.{ℕ, String, Bool, ◌≡◌, List, [], ◌∷◌, ◌++◌}
use choreography_saga_demo.Base.Int.{ℤ}
use choreography_saga_demo.Base.Outcome.{Error, ok, throws}
use choreography_saga_demo.Outbox.{Record, Publisher, message_of}
use choreography_saga_demo.Repository.{ReserveOutcome, ReleaseOutcome, EventBuilder}
use choreography_saga_demo.Relay.{batch_size}
use choreography_saga_demo.Database.Tables.{Postgres, State}
use choreography_saga_demo.Database.{reserve, release, fetch_pending, mark_published, mark_failed}

-- Where the relay's thread stands: between two passes, before the next row of the batch, after a
-- message that was accepted, in the catch block.
pub data Pc : Type 0 where
  resting : Pc
  sending : List Record → Pc
  marking : Record → List Record → Pc
  failing : Record → Error → Pc

-- `accepted` has the records whose messages the publisher has accepted, oldest first.
pub record Threads (P : Type 0) : Type 0 where
  pub pc : Pc
  pub database : State
  pub publisher : P
  pub accepted : List Record

module _ {P : Type 0} (pg : Postgres) (publisher : Publisher P) (size : ℤ) where
  -- A step of the relay's thread; `locked` may be another one in each fetch.
  pub data RelayStep (s : Threads P) : Threads P → Type 0 where
    fetched :
        (locked : String → Bool) (rows : List Record) (d : State)
        → s.pc ≡ resting
        → fetch_pending locked (batch_size size) s.database ≡ (ok rows, d)
        → RelayStep s (record s { pc = sending rows; database = d })
    sent :
        (rec : Record) (rows : List Record) (p : P)
        → s.pc ≡ sending (rec ∷ rows)
        → publisher.publish (message_of rec) s.publisher ≡ (ok tt, p)
        → RelayStep s
            (record s { pc = marking rec rows; publisher = p; accepted = s.accepted ++ rec ∷ [] })
    refused :
        (rec : Record) (rows : List Record) (e : Error) (p : P)
        → s.pc ≡ sending (rec ∷ rows)
        → publisher.publish (message_of rec) s.publisher ≡ (throws e, p)
        → RelayStep s (record s { pc = failing rec e; publisher = p })
    marked :
        (rec : Record) (rows : List Record) (d : State)
        → s.pc ≡ marking rec rows
        → mark_published pg rec.id s.database ≡ (ok tt, d)
        → RelayStep s (record s { pc = sending rows; database = d })
    unmarked :
        (rec : Record) (rows : List Record) (e : Error) (d : State)
        → s.pc ≡ marking rec rows
        → mark_published pg rec.id s.database ≡ (throws e, d)
        → RelayStep s (record s { pc = resting; database = d })
    counted :
        (rec : Record) (e : Error)
        → s.pc ≡ failing rec e
        → RelayStep s (record s { pc = resting; database = (mark_failed pg rec.id s.database).1 })
    finished : s.pc ≡ sending [] → RelayStep s (record s { pc = resting })

  -- A step of any thread: the relay moves, or another one calls the database, or time passes.
  pub data Step (s : Threads P) : Threads P → Type 0 where
    relay : {t : Threads P} → RelayStep s t → Step s t
    reserves :
        (saga key sku : String) (q : ℤ) (build : EventBuilder ReserveOutcome)
        → Step s (record s { database = (reserve pg saga key sku q build s.database).1 })
    releases :
        (saga id key consumer : String) (build : EventBuilder ReleaseOutcome)
        → Step s (record s { database = (release pg saga id key consumer build s.database).1 })
    waits : (now : ℕ) → Step s (record s { database = record s.database { now = now } })

  pub data Reach (s : Threads P) : Threads P → Type 0 where
    here : Reach s s
    next : {t u : Threads P} → Reach s t → Step t u → Reach s u

  -- Steps of the relay's thread, with none of another thread between them.
  pub data Moves (s : Threads P) : Threads P → Type 0 where
    still : Moves s s
    moved : {t u : Threads P} → Moves s t → RelayStep t u → Moves s u

  pub Moves-Reach : {s t : Threads P} → Moves s t → Reach s t
  Moves-Reach still = here
  Moves-Reach (moved m st) = next (Moves-Reach m) (relay st)
