-- ===== src/Relay/Own.antt =====
-- One row of the outbox and its own message, however the threads are interleaved.
use choreography_saga_demo.Base.{
  ℕ, String, ◌≡◌, sym, ap, ◌∙◌, ◌<◌, inl, inr, true, List, [], ◌∷◌, arith, All, All-append,
}
use mathlib.Core.Path.{subst}
use choreography_saga_demo.Base.Int.{ℤ}
use choreography_saga_demo.Base.Outcome.{ok}
use choreography_saga_demo.Outbox.{Record, Message, message_of}
use choreography_saga_demo.Relay.{batch_size}
use choreography_saga_demo.Relay.Threads.{
  Pc, resting, sending, marking, failing, Threads, Step, relay, fetched, sent, refused, marked,
  unmarked, counted, finished, reserves, releases, waits, Reach, here, next,
}
use choreography_saga_demo.Relay.Covered.{IsCanonical, IsSound, mark_published-throws}
use choreography_saga_demo.Relay.Safety.{Reach-IsSound, start-IsSound}
use choreography_saga_demo.Relay.Fresh.{AddsFresh, ReserveStep-AddsFresh, ReleaseStep-AddsFresh}
use choreography_saga_demo.Database.Tables.{Postgres, PostgresLaws, OutboxRow, State}
use choreography_saga_demo.Database.OutboxSql.{is_pending}
use choreography_saga_demo.Database.ReserveSteps.{reserve_steps}
use choreography_saga_demo.Database.ReleaseSteps.{release_steps}
use choreography_saga_demo.Database.{record_of}
use choreography_saga_demo.Kafka.Producer.{RdKafka, producer, publish}
use choreography_saga_demo.Kafka.Delivery.{
  Wire, wire_of, RdKafkaLaws, publish-keeps, publish-delivers,
}
use choreography_saga_demo.Relay.Kept.{
  Says, Keeps, fetch-Says, Keeps-done, Keeps-published, marked_rows, failed_rows,
}

module _ {K : Type 0} (rd : RdKafka K) (Taken Delivered : K → Wire → Type 0)
    (client : RdKafkaLaws rd Taken Delivered) (pg : Postgres) (laws : PostgresLaws pg) (size : ℤ)
    (i : ℕ) (c : Record) where
  abbrev id_of_row : String
  id_of_row = pg.random_uuid i

  abbrev Done : K → Type 0
  Done k = Delivered k (wire_of (message_of c))

  abbrev Hands : K → Pc → Type 0
  Hands k resting = Unit
  Hands k (sending rows) = All (Says id_of_row c) rows
  Hands k (marking rec rows) = (rec.id ≡ id_of_row → Done k) × All (Says id_of_row c) rows
  Hands k (failing rec e) = Unit

  -- The row was drawn before, its copies say `c`, and so do the records in the relay's hands.
  record IsOwn (s : Threads K) : Type 0 where
    pub drawn_before : i < s.database.drawn
    pub rows_keep : All (Keeps id_of_row c (Done s.publisher)) s.database.outbox
    pub in_hands : Hands s.publisher s.pc

  fresh_row :
      (d d' : State) (k : K)
      → i < d.drawn
      → AddsFresh pg d d'
      → All (Keeps id_of_row c (Done k)) d.outbox
      → All (Keeps id_of_row c (Done k)) d'.outbox
  fresh_row d d' k before (more, inl same) h = rw same h
  fresh_row d d' k before (more, inr (r, n, grown, late, id)) h = rw grown (
      All-append (Keeps id_of_row c (Done k)) d.outbox (r ∷ []) h
        (λ e. absurd (omega (arith, late, laws.random_distinct n i (sym id ∙ e))), tt))

  added :
      (s : Threads K) (d : State)
      → AddsFresh pg s.database d
      → IsOwn s
      → IsOwn (record s { database = d })
  added s d a h = record {
    drawn_before = omega (arith, h.drawn_before, a.0);
    rows_keep = fresh_row s.database d s.publisher h.drawn_before a h.rows_keep;
    in_hands = h.in_hands;
  }

  Done-keeps : (m : Message) (k : K) → Done k → Done (publish rd m k).1
  Done-keeps m k d = publish-keeps rd Taken Delivered client m k (wire_of (message_of c)) d

  Done-sent :
      (rec : Record) (k : K)
      → Says id_of_row c rec
      → (publish rd (message_of rec) k).0 ≡ ok tt
      → rec.id ≡ id_of_row
      → Done (publish rd (message_of rec) k).1
  Done-sent rec k says sends q =
      subst (λ z. Delivered (publish rd (message_of rec) k).1 (wire_of (message_of z))) (says q)
        (publish-delivers rd Taken Delivered client (message_of rec) k sends)

  Step-IsOwn : {s t : Threads K} → Step pg (producer rd) size s t → IsSound pg s → IsOwn s → IsOwn t
  Step-IsOwn {s} (relay (fetched locked rows d at e)) sound h =
      let (same, says) =
        fetch-Says id_of_row c (Done s.publisher) locked (batch_size size) s.database d rows
          h.rows_keep e in
      record {
        drawn_before = rw same h.drawn_before;
        rows_keep = rw same h.rows_keep;
        in_hands = says;
      }
  Step-IsOwn {s} (relay (sent rec rows p at e)) sound h =
      let (says, others) = rw at at h.in_hands in
      let same = ap (λ r. r.1) e in
      record {
        drawn_before = h.drawn_before;
        rows_keep =
            Keeps-done id_of_row c (Done s.publisher) (Done p) s.database.outbox
              (λ d. subst Done same (Done-keeps (message_of rec) s.publisher d)) h.rows_keep;
        in_hands =
            (λ q. subst Done same (Done-sent rec s.publisher says (ap (λ r. r.0) e) q), others);
      }
  Step-IsOwn {s} (relay (refused rec rows e p at x)) sound h = record {
    drawn_before = h.drawn_before;
    rows_keep =
        Keeps-done id_of_row c (Done s.publisher) (Done p) s.database.outbox
          (λ d. subst Done (ap (λ r. r.1) x) (Done-keeps (message_of rec) s.publisher d))
          h.rows_keep;
    in_hands = tt;
  }
  Step-IsOwn {s} (relay (marked rec rows d at e)) sound h =
      let (known, valid, others) = rw at at sound.holds in
      let (done, says) = rw at at h.in_hands in
      let after = marked_rows pg rec.id s.database d valid e in
      record {
        drawn_before = rw (← after) h.drawn_before;
        rows_keep = rw (← after) (
            Keeps-published id_of_row rec.id c (Done s.publisher) s.database.now s.database.outbox
              done h.rows_keep);
        in_hands = says;
      }
  Step-IsOwn {s} (relay (unmarked rec rows e d at x)) sound h =
      let same = mark_published-throws pg rec.id s.database d e x in
      record {
        drawn_before = rw same h.drawn_before;
        rows_keep = rw same h.rows_keep;
        in_hands = tt;
      }
  Step-IsOwn {s} (relay (counted rec e at)) sound h =
      let (same, kept) =
        failed_rows pg id_of_row rec.id c (Done s.publisher) s.database (rw at at sound.holds)
          h.rows_keep in
      record { drawn_before = rw same h.drawn_before; rows_keep = kept; in_hands = tt }
  Step-IsOwn (relay (finished at)) sound h = record {
    drawn_before = h.drawn_before;
    rows_keep = h.rows_keep;
    in_hands = tt;
  }
  Step-IsOwn {s} (reserves saga key sku q build) sound h =
      added s _
        (ReserveStep-AddsFresh pg saga key sku q build s.database
          (reserve_steps pg saga key sku q build s.database))
        h
  Step-IsOwn {s} (releases saga id key consumer build) sound h =
      added s _
        (ReleaseStep-AddsFresh pg saga id key consumer build s.database
          (release_steps pg saga id key consumer build s.database))
        h
  Step-IsOwn (waits now) sound h = record {
    drawn_before = h.drawn_before;
    rows_keep = h.rows_keep;
    in_hands = h.in_hands;
  }

  Reach-IsOwn :
      {s t : Threads K} → Reach pg (producer rd) size s t → IsSound pg s → IsOwn s → IsOwn t
  Reach-IsOwn here sound h = h
  Reach-IsOwn (next r st) sound h =
      Step-IsOwn st (Reach-IsSound pg laws (producer rd) size r sound) (Reach-IsOwn r sound h)

  start-Keeps :
      (k : K) (rows : List OutboxRow)
      → All (λ r. is_pending r.status ≡ true) rows
      → All (λ r. r.id ≡ id_of_row → record_of r ≡ c) rows
      → All (Keeps id_of_row c (Done k)) rows
  start-Keeps k [] h g = tt
  start-Keeps k (r ∷ rs) h g = (λ q. (g.0 q, inl h.0), start-Keeps k rs h.1 g.1)

  -- Over a broker for which no delivery fails: however the relay's thread is interleaved with
  -- reservations and releases and whatever rows other sessions lock, from a state in which the relay
  -- rests and all rows are pending under valid ids, take an id that was drawn before, and let the row of
  -- that id have the record `c`. At any later time the row of that id still has the record `c`, and it is
  -- pending, or the producer has delivered the message of `c` to the broker.
  pub published-Keeps :
      {s t : Threads K}
      → s.pc ≡ resting
      → All (λ r. is_pending r.status ≡ true) s.database.outbox
      → All (λ r. IsCanonical pg r.id) s.database.outbox
      → i < s.database.drawn
      → All (λ r. r.id ≡ pg.random_uuid i → record_of r ≡ c) s.database.outbox
      → Reach pg (producer rd) size s t
      → All
          (Keeps (pg.random_uuid i) c (Delivered t.publisher (wire_of (message_of c))))
          t.database.outbox
  published-Keeps {s} at pending canonical before says r =
      (Reach-IsOwn r (start-IsSound pg laws (producer rd) size s at pending canonical) (record {
        drawn_before = before;
        rows_keep = start-Keeps s.publisher s.database.outbox pending says;
        in_hands = rw at tt;
      })).rows_keep
