-- ===== src/Relay/Schedule.antt =====
-- A pass of Relay.drain_once as a sequence of steps of Relay/Threads.
use choreography_saga_demo.Base.{
  ℕ, ◌+◌, String, Bool, ◌≡◌, refl, sym, ap, inl, inr, List, [], ◌∷◌, ◌++◌, arith,
}
use mathlib.Core.Path.{subst}
use mathlib.Core.List.{append_assoc, append-nil}
use choreography_saga_demo.Base.Int.{ℤ}
use choreography_saga_demo.Base.Outcome.{Error, ok, throws, Outcome-cases}
use choreography_saga_demo.Outbox.{Record, Publisher, message_of}
use choreography_saga_demo.Relay.{World, batch_size, record_lag, publish_all, drain_once}
use choreography_saga_demo.Relay.Threads.{
  Pc, resting, sending, Threads, fetched, sent, refused, marked, unmarked, counted, finished, Moves,
  still, moved,
}
use choreography_saga_demo.Database.Tables.{Postgres, State}
use choreography_saga_demo.Database.{fetch_pending, mark_published, mark_failed, outbox_repo}

module _ {P : Type 0} (pg : Postgres) (locked : String → Bool) (publisher : Publisher P)
    (clock : ℕ → ℕ) (size : ℤ) where
  abbrev pub stands : Pc → World State P → List Record → Threads P
  stands pc w accepted = record {
    pc = pc;
    database = w.repo;
    publisher = w.publisher;
    accepted = accepted;
  }

  -- The state of a loop that was left by a throw of `publish`, and of `mark_published`.
  abbrev after_refused : Record → World State P → World State P
  after_refused rec w = record w {
    repo = (mark_failed pg rec.id w.repo).1;
    publisher = (publisher.publish (message_of rec) w.publisher).1;
  }

  abbrev after_sent : Record → World State P → World State P
  after_sent rec w = record w {
    repo = (mark_published pg rec.id w.repo).1;
    publisher = (publisher.publish (message_of rec) w.publisher).1;
  }

  -- The records of a batch whose messages the publisher accepts, up to the row that ends the loop.
  abbrev pub accepted_rows : List Record → World State P → List Record
  accepted_rows [] w = []
  accepted_rows (rec ∷ rows) w = elim (publisher.publish (message_of rec) w.publisher).0 [
    | throws e ↦ []
    | ok _ ↦ rec ∷ elim (mark_published pg rec.id w.repo).0 [
      | throws e ↦ []
      | ok _ ↦ accepted_rows rows (record_lag clock rec (after_sent rec w)).1
    ]
  ]

  -- Those of a pass.
  abbrev pub accepted_of : World State P → List Record
  accepted_of w =
      let (r, d) = fetch_pending locked (batch_size size) w.repo in
      elim r [ throws e ↦ [] | ok rows ↦ accepted_rows rows (record w { repo = d }) ]

  record_lag-stands :
      (pc : Pc) (rec : Record) (w : World State P) (accepted : List Record)
      → stands pc (record_lag clock rec w).1 accepted ≡ stands pc w accepted
  unfolding record_lag
  record_lag-stands pc rec w accepted = ground arith

  -- Where the loop ends.
  abbrev ended : List Record → ℕ → World State P → List Record → Threads P
  ended rows n w accepted =
      stands resting (publish_all (outbox_repo pg locked) publisher clock rows n w).1
        (accepted ++ accepted_rows rows w)

  ended-none :
      (n : ℕ) (w : World State P) (accepted : List Record)
      → ended [] n w accepted ≡ stands resting w accepted
  unfolding publish_all
  ended-none n w accepted = ap (λ a. stands resting w a) (append-nil accepted)

  ended-refused :
      (rec : Record) (rows : List Record) (n : ℕ) (w : World State P) (accepted : List Record)
      (e : Error)
      → (publisher.publish (message_of rec) w.publisher).0 ≡ throws e
      → ended (rec ∷ rows) n w accepted ≡ stands resting (after_refused rec w) accepted
  unfolding publish_all
  ended-refused rec rows n w accepted e x = ground (arith, x, append-nil accepted)

  ended-unmarked :
      (rec : Record) (rows : List Record) (n : ℕ) (w : World State P) (accepted : List Record)
      (e : Error)
      → (publisher.publish (message_of rec) w.publisher).0 ≡ ok tt
      → (mark_published pg rec.id w.repo).0 ≡ throws e
      → ended (rec ∷ rows) n w accepted ≡ stands resting (after_sent rec w) (accepted ++ rec ∷ [])
  unfolding publish_all
  ended-unmarked rec rows n w accepted e x y = ground (arith, x, y)

  ended-marked :
      (rec : Record) (rows : List Record) (n : ℕ) (w : World State P) (accepted : List Record)
      → (publisher.publish (message_of rec) w.publisher).0 ≡ ok tt
      → (mark_published pg rec.id w.repo).0 ≡ ok tt
      → ended (rec ∷ rows) n w accepted
        ≡ ended rows (n + 1) (record_lag clock rec (after_sent rec w)).1 (accepted ++ rec ∷ [])
  unfolding publish_all
  ended-marked rec rows n w accepted x y = ground (
    arith,
    x,
    y,
    append_assoc accepted (rec ∷ [])
        (accepted_rows rows (record_lag clock rec (after_sent rec w)).1),
  )

  publish_all-Moves :
      (rows : List Record) (n : ℕ) (w : World State P) (accepted : List Record) (s : Threads P)
      → Moves pg publisher size s (stands (sending rows) w accepted)
      → Moves pg publisher size s (ended rows n w accepted)
  publish_all-Moves [] n w accepted s r =
      subst (Moves pg publisher size s) (sym (ended-none n w accepted)) (moved r (finished refl))
  publish_all-Moves (rec ∷ rows) n w accepted s r =
      let p : P = (publisher.publish (message_of rec) w.publisher).1 in
      elim (Outcome-cases (publisher.publish (message_of rec) w.publisher).0) [
        | inl (e, x) ↦
            subst (Moves pg publisher size s) (sym (ended-refused rec rows n w accepted e x))
              (moved (moved r (refused rec rows e p refl (λ i. (x i, p)))) (counted rec e refl))
        | inr (t, x) ↦
            let r' = moved r (sent rec rows p refl (λ i. (x i, p))) in
            let d : State = (mark_published pg rec.id w.repo).1 in
            elim (Outcome-cases (mark_published pg rec.id w.repo).0) [
              | inl (e, y) ↦
                  subst (Moves pg publisher size s)
                    (sym (ended-unmarked rec rows n w accepted e x y))
                    (moved r' (unmarked rec rows e d refl (λ i. (y i, d))))
              | inr (t', y) ↦
                  subst (Moves pg publisher size s) (sym (ended-marked rec rows n w accepted x y)) (
                    publish_all-Moves rows (n + 1) (record_lag clock rec (after_sent rec w)).1
                      (accepted ++ rec ∷ []) s
                      (subst (Moves pg publisher size s)
                        (sym (
                          record_lag-stands (sending rows) rec (after_sent rec w)
                            (accepted ++ rec ∷ [])))
                        (moved r' (marked rec rows d refl (λ i. (y i, d))))))
            ]
      ]

  -- Where a pass ends.
  abbrev pub passed : World State P → List Record → Threads P
  passed w accepted =
      stands resting (drain_once (outbox_repo pg locked) publisher clock size w).1
        (accepted ++ accepted_of w)

  passed-unfetched :
      (w : World State P) (accepted : List Record) (e : Error)
      → (fetch_pending locked (batch_size size) w.repo).0 ≡ throws e
      → passed w accepted ≡ stands resting w accepted
  unfolding drain_once fetch_pending
  passed-unfetched w accepted e x = ground (arith, x, append-nil accepted)

  passed-fetched :
      (w : World State P) (accepted rows : List Record)
      → (fetch_pending locked (batch_size size) w.repo).0 ≡ ok rows
      → passed w accepted
        ≡ ended rows 0
            (record w { repo = (fetch_pending locked (batch_size size) w.repo).1 })
            accepted
  unfolding drain_once
  passed-fetched w accepted rows x = ground (arith, x)

  -- A pass of the relay from a resting state, whatever the publisher does, is a sequence of the
  -- steps of the relay's own thread, with no step of another thread between them, that ends in the
  -- resting state with the database and the publisher that the pass leaves. The records whose
  -- messages the publisher accepts in it are those of the pass's batch, in their order, up to the
  -- first that it refuses, without this one, or up to the first whose row cannot be marked after
  -- its message was accepted, with this one.
  pub drain_once-Moves :
      (w : World State P) (accepted : List Record)
      → Moves pg publisher size (stands resting w accepted) (passed w accepted)
  drain_once-Moves w accepted =
      let s : Threads P = stands resting w accepted in
      let d : State = (fetch_pending locked (batch_size size) w.repo).1 in
      elim (Outcome-cases (fetch_pending locked (batch_size size) w.repo).0) [
        | inl (e, x) ↦
            subst (Moves pg publisher size s) (sym (passed-unfetched w accepted e x)) still
        | inr (rows, x) ↦
            subst (Moves pg publisher size s) (sym (passed-fetched w accepted rows x)) (
              publish_all-Moves rows 0 (record w { repo = d }) accepted s
                (moved still (fetched locked rows d refl (λ i. (x i, d)))))
      ]
