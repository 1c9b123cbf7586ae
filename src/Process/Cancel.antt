-- ===== src/Process/Cancel.antt =====
-- What the consumer's callback in services/inventory/src/main.cpp does over Database.
use choreography_saga_demo.Base.{ℕ, String, text_dec, ◌≡◌, ◌≢◌, ◌⊎◌, inl, inr, true, arith}
use choreography_saga_demo.Base.Outcome.{Error, Outcome, ok, throws, Outcome-cases}
use choreography_saga_demo.Repository.{ReleaseOutcome}
use choreography_saga_demo.Json.{Json}
use choreography_saga_demo.Envelope.{Envelope, Entropy, parse}
use choreography_saga_demo.Database.Tables.{Postgres, State}
use choreography_saga_demo.Database.Sql.{is_processed}
use choreography_saga_demo.Database.{release, repository}
use choreography_saga_demo.Database.Markers.{
  ReleaseStep-throws, ReleaseStep-processed, ReleaseStep-marked, release-processed,
}
use choreography_saga_demo.Database.ReleaseSteps
use choreography_saga_demo.Database.ReleaseSteps.{ReleaseStep}
use choreography_saga_demo.App.{
  topic_order_cancelled, consumer_order_cancelled, event_traceparent, build_release_event,
  handle_order_cancelled,
}
use choreography_saga_demo.Kafka.{KafkaMessage, traceparent_of}
use choreography_saga_demo.Kafka.Commits.{RollsBack}
use choreography_saga_demo.Process.{cancel_order, on_message}

abbrev forget : {A : Type 0} → Outcome A → Outcome (Unit {0})
forget (ok a) = ok tt
forget (throws e) = throws e

module _ {J : Type 0} (lib : Json J) (pg : Postgres) where
  -- The release that a cancelled order asks for.
  abbrev pub cancel_release :
      Entropy → Envelope J → String → String → State → Outcome ReleaseOutcome × State
  cancel_release entropy env id traceparent =
      release pg env.saga_id id env.idempotency_key consumer_order_cancelled (
        build_release_event lib entropy env.saga_id id
          (event_traceparent lib entropy (repository pg) env traceparent))

  pub cancel_step :
      (entropy : Entropy) (env : Envelope J) (id traceparent : String) (d : State)
      → let (r, d') = cancel_release entropy env id traceparent d in
        ReleaseStep pg env.saga_id id env.idempotency_key consumer_order_cancelled
          (build_release_event lib entropy env.saga_id id
            (event_traceparent lib entropy (repository pg) env traceparent))
          d
          r
          d'
  cancel_step entropy env id traceparent d =
      ReleaseSteps.release_steps pg env.saga_id id env.idempotency_key consumer_order_cancelled
        (build_release_event lib entropy env.saga_id id
          (event_traceparent lib entropy (repository pg) env traceparent))
        d

  -- The event and the reservation id that a message carries.
  abbrev pub Carries : String → Envelope J → String → Type 0
  Carries value env id =
      (parse lib value ≡ ok env) × (lib.value_text env.payload "reservationId" "" ≡ ok id)

  pub cancel_order-release :
      (entropy : ℕ → Entropy) (round : ℕ) (value traceparent : String) (env : Envelope J)
      (id : String) (d : State)
      → Carries value env id
      → cancel_order lib (repository pg) entropy round value traceparent d ≡ (
        forget (cancel_release (entropy round) env id traceparent d).0,
        (cancel_release (entropy round) env id traceparent d).1,
      )
  unfolding cancel_order handle_order_cancelled
  cancel_order-release entropy round value traceparent env id d h =
      elim (Outcome-cases (cancel_release (entropy round) env id traceparent d).0) [
        | inl (e, x) ↦ ground (arith, h.0, h.1, x)
        | inr (o, x) ↦ ground (arith, h.0, h.1, x)
      ]

  -- A message that carries no event changes nothing, and throws.
  pub cancel_order-Carries :
      (entropy : ℕ → Entropy) (round : ℕ) (value traceparent : String) (d : State)
      → ((e : Error) × (cancel_order lib (repository pg) entropy round value traceparent d
            ≡ (throws e, d)))
        ⊎ ((env : Envelope J) × (id : String) × Carries value env id)
  unfolding cancel_order handle_order_cancelled
  cancel_order-Carries entropy round value traceparent d = elim (Outcome-cases (parse lib value)) [
    | inl (e, x) ↦ inl (e, ground (arith, x))
    | inr (env, x) ↦ elim (Outcome-cases (lib.value_text env.payload "reservationId" "")) [
      | inl (e, y) ↦ inl (e, ground (arith, x, y))
      | inr (id, y) ↦ inr (env, id, (x, y))
    ]
  ]

  -- The message is of another topic, or its event has been handled.
  abbrev pub Settled : State → KafkaMessage → Type 0
  Settled d msg =
      (msg.topic_name ≢ topic_order_cancelled)
      ⊎ ((env : Envelope J) × (id : String) × Carries msg.payload env id
          × (is_processed env.idempotency_key consumer_order_cancelled d.processed_messages ≡ true))

  module _ (entropy : ℕ → Entropy) where
    pub on_message-RollsBack : RollsBack (on_message lib (repository pg) entropy)
    unfolding on_message
    on_message-RollsBack round topic value traceparent e d d' h =
        elim (text_dec topic topic_order_cancelled) [
          | yes same ↦ elim (cancel_order-Carries entropy round value traceparent d) [
            | inl (e', x) ↦ ground (arith, x)
            | inr (env, id, c) ↦
                elim (Outcome-cases (cancel_release (entropy round) env id traceparent d).0) [
                  | inl (e', x) ↦ ground (
                    arith,
                    cancel_order-release entropy round value traceparent env id d c,
                    ReleaseStep-throws pg env.saga_id id env.idempotency_key
                        consumer_order_cancelled _ d e'
                        (cancel_step (entropy round) env id traceparent d) x,
                  )
                  | inr (o, x) ↦ absurd (
                      ground
                        (arith, cancel_order-release entropy round value traceparent env id d c, x))
                ]
          ]
          | no other ↦ absurd (ground arith)
        ]

    pub on_message-Settled :
        (round : ℕ) (msg : KafkaMessage) (d d' : State)
        → on_message lib
            (repository pg)
            entropy
            round
            msg.topic_name
            msg.payload
            (traceparent_of msg)
            d
          ≡ (ok tt, d')
        → Settled d' msg
    unfolding on_message
    on_message-Settled round msg d d' h = elim (text_dec msg.topic_name topic_order_cancelled) [
      | yes same ↦ elim (cancel_order-Carries entropy round msg.payload (traceparent_of msg) d) [
        | inl (e', x) ↦ absurd (ground (arith, x))
        | inr (env, id, c) ↦
            elim (Outcome-cases (cancel_release (entropy round) env id (traceparent_of msg) d).0) [
              | inl (e', x) ↦ absurd (
                  ground (
                    arith,
                    cancel_order-release entropy round msg.payload (traceparent_of msg) env id d c,
                    x,
                  ))
              | inr (o, x) ↦ inr (
                env,
                id,
                c,
                ground (
                  arith,
                  x,
                  cancel_order-release entropy round msg.payload (traceparent_of msg) env id d c,
                  ReleaseStep-marked pg env.saga_id id env.idempotency_key consumer_order_cancelled
                      _ d o (cancel_step (entropy round) env id (traceparent_of msg) d) x,
                ),
              )
            ]
      ]
      | no other ↦ inl other
    ]

    pub Settled-on_message :
        (round : ℕ) (topic value traceparent : String) (msg : KafkaMessage) (d d' : State)
        → on_message lib (repository pg) entropy round topic value traceparent d ≡ (ok tt, d')
        → Settled d msg
        → Settled d' msg
    unfolding on_message
    Settled-on_message round topic value traceparent msg d d' h (inl other) = inl other
    Settled-on_message round topic value traceparent msg d d' h (inr (env', id', c', m)) =
        elim (text_dec topic topic_order_cancelled) [
          | yes same ↦ elim (cancel_order-Carries entropy round value traceparent d) [
            | inl (e', x) ↦ absurd (ground (arith, x))
            | inr (env, id, c) ↦ inr (
              env',
              id',
              c',
              ground (
                arith,
                cancel_order-release entropy round value traceparent env id d c,
                ReleaseStep-processed pg env.saga_id id env.idempotency_key consumer_order_cancelled
                    _ d env'.idempotency_key (cancel_step (entropy round) env id traceparent d) m,
              ),
            )
          ]
          | no other ↦ inr (env', id', c', ground arith)
        ]

    -- A settled message is handled again without an exception, and changes nothing.
    pub on_message-again :
        (round : ℕ) (msg : KafkaMessage) (d : State)
        → Settled d msg
        → on_message lib
            (repository pg)
            entropy
            round
            msg.topic_name
            msg.payload
            (traceparent_of msg)
            d
          ≡ (ok tt, d)
    unfolding on_message
    on_message-again round msg d (inl other) = ground arith
    on_message-again round msg d (inr (env, id, c, m)) =
        elim (text_dec msg.topic_name topic_order_cancelled) [
          | yes same ↦ ground (
            arith,
            cancel_order-release entropy round msg.payload (traceparent_of msg) env id d c,
            release-processed pg env.saga_id id env.idempotency_key consumer_order_cancelled
                (build_release_event lib (entropy round) env.saga_id id
                  (event_traceparent lib (entropy round) (repository pg) env (traceparent_of msg)))
                d m,
          )
          | no other ↦ ground arith
        ]
