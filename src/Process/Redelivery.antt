-- ===== src/Process/Redelivery.antt =====
-- The consumer over Database, when messages that it has committed come again.
use choreography_saga_demo.Base.{ℕ, suc, ◌≡◌, ◌∙◌, sym, ap, List, [], ◌∷◌, ◌++◌, map, arith, All}
use mathlib.Core.List.{append_assoc, append-nil}
use choreography_saga_demo.Json.{Json}
use choreography_saga_demo.Envelope.{Entropy}
use choreography_saga_demo.Database.Tables.{Postgres, State}
use choreography_saga_demo.Database.{repository}
use choreography_saga_demo.Kafka.{
  KafkaMessage, Poll, received, Consumed, Handler, traceparent_of, handle_message, run,
}
use choreography_saga_demo.Kafka.Commits.{Handled, run-commits, done, next}
use choreography_saga_demo.Process.{on_message}
use choreography_saga_demo.Process.Cancel.{
  Settled, on_message-RollsBack, on_message-Settled, Settled-on_message, on_message-again,
}

module _ {J : Type 0} (lib : Json J) (pg : Postgres) (entropy : ℕ → Entropy) where
  abbrev consumer : Handler State
  consumer = on_message lib (repository pg) entropy

  Handled-Settled :
      (msg : KafkaMessage) {d d' : State} {msgs : List KafkaMessage}
      → Handled consumer d msgs d'
      → Settled lib pg d msg
      → Settled lib pg d' msg
  Handled-Settled msg done s = s
  Handled-Settled msg {d = d} (next {s' = s'} round m x h) s = Handled-Settled msg h (
      Settled-on_message lib pg entropy round m.topic_name m.payload (traceparent_of m) msg d s' x
        s)

  Handled-All-Settled :
      {d d' : State} {msgs : List KafkaMessage}
      → Handled consumer d msgs d'
      → All (Settled lib pg d') msgs
  Handled-All-Settled done = tt
  Handled-All-Settled {d = d} (next {s' = s'} round m x h) = (
    Handled-Settled m h (on_message-Settled lib pg entropy round m d s' x),
    Handled-All-Settled h,
  )

  handle_message-again :
      (round : ℕ) (m : KafkaMessage) (w : Consumed State)
      → Settled lib pg w.app m
      → handle_message consumer round m w ≡ record w { commits = w.commits ++ m ∷ [] }
  unfolding handle_message
  handle_message-again round m w h = ground (arith, on_message-again lib pg entropy round m w.app h)

  run-All-Settled :
      (round : ℕ) (msgs : List KafkaMessage) (w : Consumed State)
      → All (Settled lib pg w.app) msgs
      → run consumer round (map received msgs) w ≡ record w { commits = w.commits ++ msgs }
  unfolding run
  run-All-Settled round [] w h = λ i. record w { commits = sym (append-nil w.commits) i }
  run-All-Settled round (m ∷ ms) w h =
      let again : Consumed State = record w { commits = w.commits ++ m ∷ [] } in
      ap (run consumer (suc round) (map received ms)) (handle_message-again round m w h.0)
      ∙ (run-All-Settled (suc round) ms again h.1
          ∙ (λ i. record w { commits = append_assoc w.commits (m ∷ []) ms i }))

module _ {J : Type 0} (lib : Json J) (pg : Postgres) (entropy entropy' : ℕ → Entropy) where
  -- However the consumer's run over Database goes, the messages that it committed may all be delivered
  -- once more: a second run handles and commits each of them again, none throws, and the database
  -- stays as it is.
  pub run-redelivered :
      (round round' : ℕ) (polls : List Poll) (w : Consumed State)
      → let w' = run (on_message lib (repository pg) entropy) round polls w in
        (msgs : List KafkaMessage) × (w'.commits ≡ w.commits ++ msgs)
        × (run (on_message lib (repository pg) entropy') round' (map received msgs) w'
            ≡ record w' { commits = w'.commits ++ msgs })
  run-redelivered round round' polls w =
      let (msgs, commits, handled) =
        run-commits (on_message lib (repository pg) entropy) (on_message-RollsBack lib pg entropy)
          round polls w in
      (
        msgs,
        commits,
        run-All-Settled lib pg entropy' round' msgs
            (run (on_message lib (repository pg) entropy) round polls w)
            (Handled-All-Settled lib pg entropy handled),
      )
