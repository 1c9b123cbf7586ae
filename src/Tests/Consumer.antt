-- ===== src/Tests/Consumer.antt =====
-- Runs of the consumer, and its theorems at concrete messages.
use choreography_saga_demo.Base.{
  ℕ, suc, String, text_dec, ◌≡◌, refl, ◌<◌, List, [], ◌∷◌, ◌++◌, map, some, arith,
}
use choreography_saga_demo.Base.Outcome.{ok, throws, json_type_error}
use choreography_saga_demo.Envelope.{Entropy, to_json}
use choreography_saga_demo.Database.Tables.{State}
use choreography_saga_demo.Database.{repository}
use choreography_saga_demo.Kafka.{KafkaMessage, Poll, timed_out, received, Handler, Consumed, run}
use choreography_saga_demo.Kafka.Commits.{RollsBack, Ran, run-commits}
use choreography_saga_demo.Kafka.Position.{position, run-skips}
use choreography_saga_demo.Process.{on_message}
use choreography_saga_demo.Process.Redelivery.{run-redelivered}
use choreography_saga_demo.Tests.Fixtures.{server, seed}
use choreography_saga_demo.Tests.Calls.{cancelled, text_of_ok}
use choreography_saga_demo.Tests.JsonModel.{model}

-- A handler that counts the messages and refuses the value "bad".
abbrev counter : Handler ℕ
counter round topic value traceparent n = elim (text_dec value "bad") [
  | yes e ↦ (throws json_type_error, n)
  | no ne ↦ (ok tt, suc n)
]

counter-RollsBack : RollsBack counter
counter-RollsBack round topic value traceparent e s s' h = elim (text_dec value "bad") [
  | yes bad ↦ ground arith
  | no good ↦ absurd (ground arith)
]

abbrev message : ℕ → String → KafkaMessage
message offset payload = record {
  topic_name = "order.cancelled";
  partition = 0;
  offset = offset;
  payload = payload;
  traceparents = "tp" ∷ [];
}

abbrev polls : List Poll
polls =
    received (message 4 "good")
    ∷ timed_out
    ∷ received (message 5 "bad")
    ∷ received (message 6 "good")
    ∷ []

abbrev start : Consumed ℕ
start = record { app = 0; commits = [] }

run_counts : (run counter 0 polls start).app ≡ 2
unfolding run text_dec
run_counts = refl

run-commits_example : Ran counter start (run counter 0 polls start)
run-commits_example = run-commits counter counter-RollsBack 0 polls start

run-skips_example :
    let w' = run counter 0 (received (message 5 "bad") ∷ received (message 6 "good") ∷ []) start in
    (n : ℕ) × (position 0 w'.commits ≡ some n) × (5 < n) × (w'.commits ≡ message 6 "good" ∷ [])
unfolding text_dec
run-skips_example =
    run-skips counter 0 (message 5 "bad") (message 6 "good") json_type_error 0 1 start refl refl
      refl (omega arith)

abbrev entropy : ℕ → Entropy
entropy round = record {
  event_hi = round;
  event_lo = 1;
  key_hi = 2;
  key_lo = 3;
  rfc3339_now = "2026-01-02T03:04:05.678Z";
}

abbrev cancellations : List Poll
unfolding to_json
cancellations =
    received (message 7 (text_of_ok (to_json model cancelled))) ∷ received (message 8 "") ∷ []

abbrev idle : Consumed State
idle = record { app = seed; commits = [] }

run-redelivered_example :
    let w' = run (on_message model (repository server) entropy) 0 cancellations idle in
    (msgs : List KafkaMessage) × (w'.commits ≡ [] ++ msgs)
    × (run (on_message model (repository server) entropy) 9 (map received msgs) w'
        ≡ record w' { commits = w'.commits ++ msgs })
run-redelivered_example = run-redelivered model server entropy entropy 0 9 cancellations idle
