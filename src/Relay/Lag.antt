-- ===== src/Relay/Lag.antt =====
-- The publish-lag samples of the relay.
use choreography_saga_demo.Base.{
  ℕ, ◌+◌, String, Bool, ◌≡◌, refl, inl, inr, List, [], ◌∷◌, map, arith, All,
}
use choreography_saga_demo.Base.Int.{ℤ}
use choreography_saga_demo.Base.Outcome.{Outcome-cases}
use choreography_saga_demo.Outbox.{Record, Repo, Publisher, message_of}
use choreography_saga_demo.Relay.{World, publish_all, drain_once}
use choreography_saga_demo.Relay.Pass.{batch, batch-pos, batch_rows}
use choreography_saga_demo.Database.Tables.{Postgres, OutboxRow, State}
use choreography_saga_demo.Database.{record_of, fetch_pending, outbox_repo}

-- Rows with no creation time give no sample, whatever the repository and the publisher do.
publish_all-lags :
    {S P : Type 0} (repo : Repo S) (publisher : Publisher P) (clock : ℕ → ℕ) (rows : List Record)
    (n : ℕ) (w : World S P)
    → All (λ rec. rec.created_at ≡ 0) rows
    → (publish_all repo publisher clock rows n w).1.lags ≡ w.lags
unfolding publish_all
publish_all-lags repo publisher clock [] n w h = refl
publish_all-lags repo publisher clock (rec ∷ rows) n w h =
    elim (Outcome-cases (publisher.publish (message_of rec) w.publisher).0) [
      | inl (e, x) ↦ elim (Outcome-cases (repo.mark_failed rec.id w.repo).0) [
        | inl (e', y) ↦ ground arith
        | inr (t, y) ↦ ground arith
      ]
      | inr (t, x) ↦ elim (Outcome-cases (repo.mark_published rec.id w.repo).0) [
        | inl (e', y) ↦ ground arith
        | inr (t', y) ↦ ground (
          arith,
          publish_all-lags repo publisher clock rows (n + 1)
              (record w {
                repo = (repo.mark_published rec.id w.repo).1;
                publisher = (publisher.publish (message_of rec) w.publisher).1;
              })
              h.1,
        )
      ]
    ]

map-created_at : (rows : List OutboxRow) → All (λ rec. rec.created_at ≡ 0) (map record_of rows)
map-created_at [] = tt
map-created_at (r ∷ rs) = (refl, map-created_at rs)

-- A pass of the relay over Database records no publish-lag sample, whatever rows are pending and
-- whatever the publisher and the clock do.
pub drain_once-lags :
    {P : Type 0} (pg : Postgres) (locked : String → Bool) (publisher : Publisher P) (clock : ℕ → ℕ)
    (size : ℤ) (w : World State P)
    → (drain_once (outbox_repo pg locked) publisher clock size w).1.lags ≡ w.lags
unfolding drain_once fetch_pending
drain_once-lags pg locked publisher clock size w = ground (
  arith,
  batch-pos size,
  publish_all-lags (outbox_repo pg locked) publisher clock
      (map record_of (batch_rows locked (batch size) w.repo)) 0 w
      (map-created_at (batch_rows locked (batch size) w.repo)),
)
