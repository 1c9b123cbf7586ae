-- ===== src/Tests/Passes.antt =====
-- Runs of the relay over Database, and its theorems at concrete passes.
use choreography_saga_demo.Base.{
  ℕ, text_dec, text_ne, ◌≡◌, refl, List, [], ◌∷◌, ◌++◌, map, arith, length,
}
use choreography_saga_demo.Base.Int.{pos, ◌+ℤ◌}
use choreography_saga_demo.Base.Outcome.{ok, throws, runtime_error}
use choreography_saga_demo.Outbox.{Publisher, Message, Record, message_of}
use choreography_saga_demo.Relay.{World, drain_once, relay_rounds, batch_size}
use choreography_saga_demo.Relay.Send.{answer, refused, settled, sent_state}
use choreography_saga_demo.Relay.Pass.{batch, batch_rows, drain_once-send}
use choreography_saga_demo.Relay.Batch.{IsBatch, fetch_oldest}
use choreography_saga_demo.Relay.Lag.{drain_once-lags}
use choreography_saga_demo.Relay.Queue.{queue}
use choreography_saga_demo.Relay.Once.{messages, relay_rounds-once}
use choreography_saga_demo.Relay.Progress.{IsReady, nothing_locked}
use choreography_saga_demo.Database.Tables.{State, OutboxRow}
use choreography_saga_demo.Database.OutboxSql.{count_rows, new_row}
use choreography_saga_demo.Database.{
  record_of, fetch_pending, mark_published, mark_failed, outbox_repo,
}
use choreography_saga_demo.Tests.Fixtures.{server, seed, event}

-- A broker that keeps what it accepts, and one that has gone away.
abbrev pub broker : Publisher (List Message)
broker = record { publish = λ m p. (ok tt, p ++ m ∷ []) }

abbrev dead : Publisher (List Message)
dead = record { publish = λ m p. (throws (runtime_error "kafka produce: down"), p) }

-- The second row is the older one.
abbrev pub two_pending : State
two_pending = record seed {
  outbox =
      new_row (event "inventory.reserved") "{}" 20 "row-1"
      ∷ new_row (event "inventory.released") "{}" 10 "row-2"
      ∷ [];
}

abbrev pub world : World State (List Message)
world = record { repo = two_pending; publisher = []; lags = [] }

abbrev pub clock : ℕ → ℕ
clock i = 5000

sends_oldest_first :
    (drain_once (outbox_repo server nothing_locked) broker clock (pos 100) world).1.publisher
    ≡ message_of (record_of (new_row (event "inventory.released") "{}" 10 "row-2"))
      ∷ message_of (record_of (new_row (event "inventory.reserved") "{}" 20 "row-1"))
      ∷ []
unfolding drain_once fetch_pending mark_published text_dec
sends_oldest_first = refl

refused_stays_pending :
    count_rows
      (drain_once (outbox_repo server nothing_locked) dead clock (pos 100) world).1.repo.outbox
    ≡ 2
unfolding drain_once fetch_pending mark_failed text_dec ◌+ℤ◌
refused_stays_pending = refl

ready : IsReady server two_pending.outbox
unfolding text_dec
ready = record {
  unique = ((text_ne "row-2" "row-1" refl, tt), (tt, tt));
  canonical = (refl, (refl, tt));
  left = omega arith;
}

drain_once-send_example :
    let rows : List Record =
      map record_of (batch_rows nothing_locked (batch (pos 1)) two_pending) in
    drain_once (outbox_repo server nothing_locked) dead clock (pos 1) world ≡ (
      answer (length rows) (refused dead rows []),
      record world {
        repo = settled server nothing_locked dead clock rows [] two_pending;
        publisher = sent_state dead rows [];
      },
    )
drain_once-send_example =
    drain_once-send server nothing_locked dead clock (pos 1) world ready.canonical ready.left

relay_rounds-once_example :
    (relay_rounds (outbox_repo server nothing_locked) broker clock (pos 1) 2 world).publisher
    ≡ [] ++ messages (queue two_pending.outbox)
unfolding batch_size
relay_rounds-once_example =
    relay_rounds-once server broker (λ p. p) clock (pos 1) (λ m p. refl) (λ m p. refl) 2 world ready
      (omega arith)

fetch_oldest_example :
    (rows : List OutboxRow) × (left : List OutboxRow) × (fetch_pending nothing_locked
        (pos 1)
        two_pending
      ≡ (ok (map record_of rows), two_pending))
    × IsBatch nothing_locked 1 two_pending rows left
fetch_oldest_example = fetch_oldest nothing_locked 1 two_pending

drain_once-lags_example :
    (drain_once (outbox_repo server nothing_locked) broker clock (pos 100) world).1.lags ≡ []
drain_once-lags_example = drain_once-lags server nothing_locked broker clock (pos 100) world
