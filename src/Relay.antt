-- ===== src/Relay.antt =====
-- services/inventory/src/outbox.cpp: the relay, over its two collaborators.
pub mod Send
pub mod Rows
pub mod Pass
pub mod Batch
pub mod Lag
pub mod Progress
pub mod Queue
pub mod Once
pub mod Threads
pub mod Covered
pub mod Safety
pub mod Kept
pub mod Fresh
pub mod Own
pub mod Schedule
use choreography_saga_demo.Base.{
  ℕ, zero, suc, ◌+◌, String, List, [], ◌∷◌, ◌++◌, length, if◌then◌else◌, ◌==◌,
}
use choreography_saga_demo.Base.Int.{ℤ, pos, ◌-ℤ◌, ltb_ℤ}
use choreography_saga_demo.Base.Outcome.{Error, ok, throws, Proc, ◌>>=◌, ◌>>◌, pure, throw}
use choreography_saga_demo.Outbox.{Record, Repo, Publisher, message_of}

-- The constructor's choice of the batch size.
unfoldable pub batch_size : ℤ → ℤ
batch_size n = if ltb_ℤ (pos 0) n then n else pos 100

-- What the relay works on: its two collaborators' states, and the lag samples handed to
-- obs::record_outbox_publish_lag, oldest first.
pub record World (S P : Type 0) : Type 0 where
  pub repo : S
  pub publisher : P
  pub lags : List ℤ

module _ {S P : Type 0} where
  abbrev pub on_repo : {A : Type 0} → Proc S A → Proc (World S P) A
  on_repo m w = let (r, s) = m w.repo in (r, record w { repo = s })

  abbrev pub on_publisher : {A : Type 0} → Proc P A → Proc (World S P) A
  on_publisher m w = let (r, s) = m w.publisher in (r, record w { publisher = s })

-- The lag sample of a published row. `clock i` is the reading of the system clock for the i-th
-- sample; the epoch as creation time means that it is unknown.
unfoldable pub record_lag : {S P : Type 0} → (ℕ → ℕ) → Record → Proc (World S P) (Unit {0})
record_lag clock rec w = (
  ok tt,
  if rec.created_at == 0
      then w
      else record w { lags = w.lags ++ (pos (clock (length w.lags)) -ℤ pos rec.created_at) ∷ [] },
)

-- The catch block of the loop: the row is marked failed, and the exception goes on.
unfoldable pub rethrow : {S P : Type 0} → Repo S → Record → Error → Proc (World S P) (Unit {0})
rethrow repo rec e = do on_repo (repo.mark_failed rec.id); throw e

unfoldable pub publish_record :
    {S P : Type 0} → Repo S → Publisher P → Record → Proc (World S P) (Unit {0})
unfolding rethrow
publish_record repo publisher rec w =
    let (r, w') = on_publisher (publisher.publish (message_of rec)) w in
    elim r [ ok _ ↦ (ok tt, w') | throws e ↦ rethrow repo rec e w' ]

-- The loop over the batch, with the number published so far.
unfoldable pub publish_all :
    {S P : Type 0} → Repo S → Publisher P → (ℕ → ℕ) → List Record → ℕ → Proc (World S P) ℕ
unfolding publish_record record_lag
publish_all repo publisher clock [] published = pure published
publish_all repo publisher clock (rec ∷ rows) published = do
  publish_record repo publisher rec
  on_repo (repo.mark_published rec.id)
  record_lag clock rec
  publish_all repo publisher clock rows (published + 1)

-- Relay::drain_once, by the batch size that the relay was constructed with.
unfoldable pub drain_once : {S P : Type 0} → Repo S → Publisher P → (ℕ → ℕ) → ℤ → Proc (World S P) ℕ
unfolding publish_all batch_size
drain_once repo publisher clock size = do
  rows ← on_repo (repo.fetch_pending (batch_size size))
  publish_all repo publisher clock rows 0

-- Relay::pending_count.
unfoldable pub pending_count : {S P : Type 0} → Repo S → Proc (World S P) ℕ
pending_count repo = on_repo repo.count_pending

-- The relay thread of services/inventory/src/main.cpp: rounds of a pass each, until the service is
-- stopped; a pass that throws is logged.
unfoldable pub relay_rounds :
    {S P : Type 0} → Repo S → Publisher P → (ℕ → ℕ) → ℤ → ℕ → World S P → World S P
relay_rounds repo publisher clock size zero w = w
relay_rounds repo publisher clock size (suc rounds) w =
    relay_rounds repo publisher clock size rounds (drain_once repo publisher clock size w).1
