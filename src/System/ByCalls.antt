-- ===== src/System/ByCalls.antt =====
-- Steps of the service as calls of the database one after another: those of the relay.
use choreography_saga_demo.Base.{
  ℕ, ◌+◌, String, ◌≡◌, refl, sym, ap, ◌∙◌, inl, inr, Bool, List, [], ◌∷◌, ◌++◌, arith, All,
  All-append,
}
use choreography_saga_demo.Base.Int.{ℤ}
use choreography_saga_demo.Base.Outcome.{Error, ok, throws, Outcome-cases}
use choreography_saga_demo.Outbox.{Publisher, Record, message_of}
use choreography_saga_demo.Relay.{
  World, drain_once, publish_all, publish_record, rethrow, record_lag, batch_size,
}
use choreography_saga_demo.Database.Tables.{Postgres, State}
use choreography_saga_demo.Database.History.{Call, publishes, attempts, step, run, Disciplined}
use choreography_saga_demo.Database.{outbox_repo, mark_published, fetch_pending}

module _ (pg : Postgres) (key_of : String → String) where
  -- From `d` to `d'` by calls of the database that keep to the discipline.
  pub record ByCalls (d d' : State) : Type 0 where
    pub calls : List Call
    pub disciplined : All (Disciplined pg key_of) calls
    pub comes : d' ≡ run pg d calls

  pub run-append : (d : State) (cs es : List Call) → run pg d (cs ++ es) ≡ run pg (run pg d cs) es
  unfolding run
  run-append d [] es = refl
  run-append d (c ∷ cs) es = run-append (step pg d c) cs es

  pub ByCalls-none : {d d' : State} → d' ≡ d → ByCalls d d'
  unfolding run
  ByCalls-none e = record { calls = []; disciplined = tt; comes = e }

  pub ByCalls-one :
      {d d' : State} (c : Call) → Disciplined pg key_of c → d' ≡ step pg d c → ByCalls d d'
  unfolding run
  ByCalls-one c h e = record { calls = c ∷ []; disciplined = (h, tt); comes = e }

  pub ByCalls-trans : {d e f : State} → ByCalls d e → ByCalls e f → ByCalls d f
  ByCalls-trans {d} a b = record {
    calls = a.calls ++ b.calls;
    disciplined = All-append _ a.calls b.calls a.disciplined b.disciplined;
    comes = b.comes ∙ ap (λ x. run pg x b.calls) a.comes ∙ sym (run-append d a.calls b.calls);
  }

  pub ByCalls-to : {d e f : State} → f ≡ e → ByCalls d e → ByCalls d f
  ByCalls-to p a = record { calls = a.calls; disciplined = a.disciplined; comes = p ∙ a.comes }

  fetch_pending-same :
      (locked : String → Bool) (limit : ℤ) (d : State) → (fetch_pending locked limit d).1 ≡ d
  unfolding fetch_pending
  fetch_pending-same locked limit d = ground arith

  module _ {P : Type 0} (locked : String → Bool) (publisher : Publisher P) (clock : ℕ → ℕ) where
    publish_all-refused :
        (rec : Record) (rows : List Record) (n : ℕ) (w : World State P) (e : Error)
        → (publisher.publish (message_of rec) w.publisher).0 ≡ throws e
        → (publish_all (outbox_repo pg locked) publisher clock (rec ∷ rows) n w).1.repo
          ≡ step pg w.repo (attempts rec.id)
    unfolding publish_all publish_record rethrow step
    publish_all-refused rec rows n w e x = ground (arith, x)

    -- The world when a message was sent and its row marked.
    abbrev marked : Record → World State P → World State P
    marked rec w =
        (record_lag clock rec (record {
          repo = step pg w.repo (publishes rec.id);
          publisher = (publisher.publish (message_of rec) w.publisher).1;
          lags = w.lags;
        })).1

    marked-repo :
        (rec : Record) (w : World State P) → (marked rec w).repo ≡ step pg w.repo (publishes rec.id)
    unfolding record_lag
    marked-repo rec w = ground arith

    publish_all-stuck :
        (rec : Record) (rows : List Record) (n : ℕ) (w : World State P) (t : Unit {0}) (e : Error)
        → (publisher.publish (message_of rec) w.publisher).0 ≡ ok t
        → (mark_published pg rec.id w.repo).0 ≡ throws e
        → (publish_all (outbox_repo pg locked) publisher clock (rec ∷ rows) n w).1.repo
          ≡ step pg w.repo (publishes rec.id)
    unfolding publish_all publish_record step
    publish_all-stuck rec rows n w t e x y = ground (arith, x, y)

    publish_all-sent :
        (rec : Record) (rows : List Record) (n : ℕ) (w : World State P) (t t' : Unit {0})
        → (publisher.publish (message_of rec) w.publisher).0 ≡ ok t
        → (mark_published pg rec.id w.repo).0 ≡ ok t'
        → (publish_all (outbox_repo pg locked) publisher clock (rec ∷ rows) n w).1.repo
          ≡ (publish_all (outbox_repo pg locked) publisher clock rows (n + 1) (marked rec w)).1.repo
    unfolding publish_all publish_record step record_lag
    publish_all-sent rec rows n w t t' x y = ground (arith, x, y)

    publish_all-ByCalls :
        (rows : List Record) (n : ℕ) (w : World State P)
        → ByCalls w.repo (publish_all (outbox_repo pg locked) publisher clock rows n w).1.repo
    unfolding publish_all
    publish_all-ByCalls [] n w = ByCalls-none refl
    publish_all-ByCalls (rec ∷ rows) n w =
        elim (Outcome-cases (publisher.publish (message_of rec) w.publisher).0) [
          | inl (e, x) ↦ ByCalls-one (attempts rec.id) tt (publish_all-refused rec rows n w e x)
          | inr (t, x) ↦ elim (Outcome-cases (mark_published pg rec.id w.repo).0) [
            | inl (e, y) ↦
                ByCalls-one (publishes rec.id) tt (publish_all-stuck rec rows n w t e x y)
            | inr (t', y) ↦ ByCalls-trans (ByCalls-one (publishes rec.id) tt (marked-repo rec w)) (
                ByCalls-to (publish_all-sent rec rows n w t t' x y)
                  (publish_all-ByCalls rows (n + 1) (marked rec w)))
          ]
        ]

    pub drain_once-ByCalls :
        (size : ℤ) (w : World State P)
        → ByCalls w.repo (drain_once (outbox_repo pg locked) publisher clock size w).1.repo
    unfolding drain_once
    drain_once-ByCalls size w =
        elim (Outcome-cases (fetch_pending locked (batch_size size) w.repo).0) [
          | inl (e, x) ↦
              ByCalls-none (ground (arith, x, fetch_pending-same locked (batch_size size) w.repo))
          | inr (rows, x) ↦
              ByCalls-to (ground (arith, x, fetch_pending-same locked (batch_size size) w.repo))
                (publish_all-ByCalls rows 0 w)
        ]
