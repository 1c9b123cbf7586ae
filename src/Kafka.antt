-- ===== src/Kafka.antt =====
-- services/inventory/include/inventory/kafka_io.hpp and src/kafka_io.cpp: the loop of the consumer,
-- over the client of the broker.
pub mod Client
pub mod Commits
pub mod Position
pub mod Producer
pub mod Delivery
pub mod Logs
use choreography_saga_demo.Base.{ℕ, suc, String, List, [], ◌∷◌, ◌++◌}
use choreography_saga_demo.Base.Outcome.{Outcome, ok, throws, Proc}

-- What `run` reads of a message: `traceparents` are the values of its headers of that name, and
-- partition and offset say what a commit of it commits.
pub record KafkaMessage : Type 0 where
  pub topic_name : String
  pub partition : ℕ
  pub offset : ℕ
  pub payload : String
  pub traceparents : List String

-- What `consume` comes back with.
pub data Poll : Type 0 where
  timed_out partition_eof : Poll
  received : KafkaMessage → Poll
  consume_error : String → Poll

-- A callback for topic, value and trace, by the number of the round in which it is called: the
-- random words that it draws differ from round to round.
abbrev pub Handler : Type 0 → Type 0
Handler S = ℕ → String → String → String → Proc S (Unit {0})

-- The state that the handler works on, and the messages handed to commitSync, oldest first.
pub record Consumed (S : Type 0) : Type 0 where
  pub app : S
  pub commits : List KafkaMessage

-- The loop over the headers: each value replaces the one before.
abbrev pub last_traceparent : String → List String → String
last_traceparent traceparent [] = traceparent
last_traceparent traceparent (h ∷ hs) = last_traceparent h hs

abbrev pub traceparent_of : KafkaMessage → String
traceparent_of msg = last_traceparent "" msg.traceparents

-- The rest of the loop's body for a message: no commit where the handler throws.
unfoldable pub handle_message :
    {S : Type 0} → Handler S → ℕ → KafkaMessage → Consumed S → Consumed S
handle_message handler round msg w =
    let (r, app) = handler round msg.topic_name msg.payload (traceparent_of msg) w.app in
    elim r [
      | ok _ ↦ record { app = app; commits = w.commits ++ msg ∷ [] }
      | throws e ↦ record w { app = app }
    ]

-- Consumer::run over the polls that it makes before it sees that it was stopped.
unfoldable pub run : {S : Type 0} → Handler S → ℕ → List Poll → Consumed S → Consumed S
unfolding handle_message
run handler round [] w = w
run handler round (timed_out ∷ polls) w = run handler (suc round) polls w
run handler round (partition_eof ∷ polls) w = run handler (suc round) polls w
run handler round (consume_error e ∷ polls) w = run handler (suc round) polls w
run handler round (received msg ∷ polls) w =
    run handler (suc round) polls (handle_message handler round msg w)
