-- ===== src/Kafka/Position.antt =====
-- Where the consumer stands in a partition after its commits.
use choreography_saga_demo.Base.{
  ℕ, suc, ◌+◌, ◌<◌, ◌≡◌, List, [], ◌∷◌, ◌++◌, Option, none, some, arith, if◌then◌else◌, ◌==◌,
}
use choreography_saga_demo.Base.Outcome.{Error, ok, throws}
use choreography_saga_demo.Kafka.{
  KafkaMessage, received, Handler, Consumed, traceparent_of, handle_message, run,
}

-- The offset from which the partition is read after a restart: the one after the message that was
-- committed last. `none`: nothing was committed.
abbrev pub position : ℕ → List KafkaMessage → Option ℕ
position partition [] = none
position partition (msg ∷ msgs) = elim (position partition msgs) [
  | some n ↦ some n
  | none ↦ if msg.partition == partition then some (msg.offset + 1) else none
]

position-append :
    (msgs : List KafkaMessage) (msg : KafkaMessage)
    → position msg.partition (msgs ++ msg ∷ []) ≡ some (msg.offset + 1)
position-append [] msg = ground arith
position-append (m ∷ ms) msg = ground (arith, position-append ms msg)

-- When the handler throws for a message, and handles the next message of the partition, the consumer
-- stands behind both: the first is not delivered again after a restart, and was not committed.
pub run-skips :
    {S : Type 0} (handler : Handler S) (round : ℕ) (msg next : KafkaMessage) (e : Error) (s s' : S)
    (w : Consumed S)
    → handler round msg.topic_name msg.payload (traceparent_of msg) w.app ≡ (throws e, s)
    → handler (suc round) next.topic_name next.payload (traceparent_of next) s ≡ (ok tt, s')
    → next.partition ≡ msg.partition
    → msg.offset < next.offset
    → let w' = run handler round (received msg ∷ received next ∷ []) w in
      (n : ℕ) × (position msg.partition w'.commits ≡ some n)
      × (msg.offset < n)
      × (w'.commits ≡ w.commits ++ next ∷ [])
unfolding run handle_message
run-skips handler round msg next e s s' w h k same later = (
  next.offset + 1,
  ground (arith, h, k, same, position-append w.commits next),
  omega arith,
  ground (arith, h, k),
)
