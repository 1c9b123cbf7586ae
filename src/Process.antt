-- ===== src/Process.antt =====
-- services/inventory/src/main.cpp: what the consumer thread does with a message. The span around the
-- callback and its log line are in Process/Callback. The threads and the signals are in Process/Lifecycle.
pub mod Lifecycle
pub mod Startup
pub mod Cancel
pub mod Redelivery
pub mod Callback
pub mod Threads
pub mod Rounds
pub mod Main
use choreography_saga_demo.Base.{ℕ, String, text_dec, ite}
use choreography_saga_demo.Base.Outcome.{Outcome, ok, throws, Proc, ◌>>=◌, pure, lift}
use choreography_saga_demo.Repository.{Repository}
use choreography_saga_demo.Json.{Json}
use choreography_saga_demo.Envelope.{Envelope, Entropy, parse}
use choreography_saga_demo.App.{topic_order_cancelled, handle_order_cancelled}
use choreography_saga_demo.Kafka.{Handler}

module _ {J S : Type 0} (lib : Json J) (repo : Repository S) (entropy : ℕ → Entropy) where
  -- The callback for a message of the topic.
  unfoldable pub cancel_order : ℕ → String → String → Proc S (Unit {0})
  cancel_order round value traceparent = do
    env ← lift (parse lib value)
    handle_order_cancelled lib (entropy round) repo env traceparent

  unfoldable pub on_message : Handler S
  unfolding cancel_order
  on_message round topic value traceparent =
      ite (text_dec topic topic_order_cancelled) (cancel_order round value traceparent) (pure tt)
