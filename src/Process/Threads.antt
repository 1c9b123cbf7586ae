-- ===== src/Process/Threads.antt =====
-- services/inventory/src/main.cpp: the callback as the consumer's thread passes it to Consumer::run.
use choreography_saga_demo.Base.{ℕ}
use choreography_saga_demo.Repository.{Repository}
use choreography_saga_demo.Json.{Json}
use choreography_saga_demo.Envelope.{Entropy}
use choreography_saga_demo.Obs.Host.{Host, Moment}
use choreography_saga_demo.Kafka.{Handler}
use choreography_saga_demo.App.Logs.{inventory_app}
use choreography_saga_demo.Process.Callback.{consume}

-- The callback as a handler: the random words, the moment of its log line and its variable `span`, by
-- the round in which it is called.
module _ {J S R : Type 0} (lib : Json J) (repo : Repository S) (entropy : ℕ → Entropy)
    (at : ℕ → Moment) (span : ℕ → ℕ) where
  abbrev pub callback : Handler (Host S J R)
  callback round topic value traceparent =
      consume lib (inventory_app lib repo) (entropy round) (at round) (span round) topic value
        traceparent
