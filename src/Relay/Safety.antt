-- ===== src/Relay/Safety.antt =====
-- What holds of the outbox however the relay and the other threads are interleaved.
use choreography_saga_demo.Base.{◌≡◌, true, List, [], ◌∷◌, arith, All}
use choreography_saga_demo.Base.Int.{ℤ}
use choreography_saga_demo.Outbox.{Record, Publisher}
use choreography_saga_demo.Relay.{batch_size}
use choreography_saga_demo.Relay.Threads.{
  resting, Threads, Step, relay, fetched, sent, refused, marked, unmarked, counted, finished,
  reserves, releases, waits, Reach, here, next,
}
use choreography_saga_demo.Relay.Covered.{
  IsCovered, IsCanonical, IsSound, has_id-last, IsCovered-append, fetch-IsCanonical,
  mark_published-rows, mark_published-throws, mark_failed-rows, Enqueues, Enqueues-rows,
  ReserveStep-Enqueues, ReleaseStep-Enqueues,
}
use choreography_saga_demo.Database.Tables.{Postgres, PostgresLaws, State, OutboxRow}
use choreography_saga_demo.Database.OutboxSql.{is_pending}
use choreography_saga_demo.Database.ReserveSteps.{reserve_steps}
use choreography_saga_demo.Database.ReleaseSteps.{release_steps}

module _ {P : Type 0} (pg : Postgres) (laws : PostgresLaws pg) (publisher : Publisher P)
    (size : ℤ) where
  enqueued-IsSound :
      (s : Threads P) (d : State)
      → Enqueues pg s.database d
      → IsSound pg s
      → IsSound pg (record s { database = d })
  enqueued-IsSound s d e h =
      let rows = Enqueues-rows pg laws s.accepted s.database d e h.covered h.canonical in
      record { covered = rows.0; canonical = rows.1; holds = h.holds }

  Step-IsSound : {s t : Threads P} → Step pg publisher size s t → IsSound pg s → IsSound pg t
  Step-IsSound {s} (relay (fetched locked rows d at e)) h =
      let (same, valid) =
        fetch-IsCanonical pg locked (batch_size size) s.database d rows h.canonical e in
      record { covered = rw same h.covered; canonical = rw same h.canonical; holds = valid }
  Step-IsSound {s} (relay (sent rec rows p at e)) h = record {
    covered = IsCovered-append pg s.accepted rec s.database.outbox h.covered;
    canonical = h.canonical;
    holds = let (valid, others) = rw at at h.holds in (has_id-last s.accepted rec, valid, others);
  }
  Step-IsSound {s} (relay (refused rec rows e p at x)) h = record {
    covered = h.covered;
    canonical = h.canonical;
    holds = (rw at at h.holds).0;
  }
  Step-IsSound {s} (relay (marked rec rows d at e)) h =
      let (known, valid, others) = rw at at h.holds in
      let (covered, canonical) =
        mark_published-rows pg s.accepted rec.id s.database d valid known e h.covered h.canonical in
      record { covered = covered; canonical = canonical; holds = others }
  Step-IsSound {s} (relay (unmarked rec rows e d at x)) h =
      let same = mark_published-throws pg rec.id s.database d e x in
      record { covered = rw same h.covered; canonical = rw same h.canonical; holds = tt }
  Step-IsSound {s} (relay (counted rec e at)) h =
      let (covered, canonical) =
        mark_failed-rows pg s.accepted rec.id s.database (rw at at h.holds) h.covered h.canonical in
      record { covered = covered; canonical = canonical; holds = tt }
  Step-IsSound (relay (finished at)) h = record {
    covered = h.covered;
    canonical = h.canonical;
    holds = tt;
  }
  Step-IsSound {s} (reserves saga key sku q build) h =
      enqueued-IsSound s _
        (ReserveStep-Enqueues pg saga key sku q build s.database
          (reserve_steps pg saga key sku q build s.database))
        h
  Step-IsSound {s} (releases saga id key consumer build) h =
      enqueued-IsSound s _
        (ReleaseStep-Enqueues pg saga id key consumer build s.database
          (release_steps pg saga id key consumer build s.database))
        h
  Step-IsSound (waits now) h = record {
    covered = h.covered;
    canonical = h.canonical;
    holds = h.holds;
  }

  pub Reach-IsSound : {s t : Threads P} → Reach pg publisher size s t → IsSound pg s → IsSound pg t
  Reach-IsSound here h = h
  Reach-IsSound (next r st) h = Step-IsSound st (Reach-IsSound r h)

  pending-IsCovered :
      (recs : List Record) (rows : List OutboxRow)
      → All (λ r. is_pending r.status ≡ true) rows
      → All (IsCovered recs) rows
  pending-IsCovered recs [] h = tt
  pending-IsCovered recs (r ∷ rs) h = ground (arith, pending-IsCovered recs rs h.1)

  pub start-IsSound :
      (s : Threads P)
      → s.pc ≡ resting
      → All (λ r. is_pending r.status ≡ true) s.database.outbox
      → All (λ r. IsCanonical pg r.id) s.database.outbox
      → IsSound pg s
  start-IsSound s at pending canonical = record {
    covered = pending-IsCovered s.accepted s.database.outbox pending;
    canonical = canonical;
    holds = rw at tt;
  }

  -- However the relay's thread is interleaved with reservations and releases, whatever rows other
  -- sessions lock and whatever messages the publisher refuses: from a state in which the relay rests and
  -- all rows of the outbox are pending under valid ids, every row that is no longer pending is one for
  -- which the publisher has accepted a message before.
  pub published-IsCovered :
      {s t : Threads P}
      → s.pc ≡ resting
      → All (λ r. is_pending r.status ≡ true) s.database.outbox
      → All (λ r. IsCanonical pg r.id) s.database.outbox
      → Reach pg publisher size s t
      → All (IsCovered t.accepted) t.database.outbox
  published-IsCovered {s} at pending canonical r =
      (Reach-IsSound r (start-IsSound s at pending canonical)).covered
