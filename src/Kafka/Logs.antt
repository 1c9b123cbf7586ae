-- ===== src/Kafka/Logs.antt =====
-- services/inventory/src/kafka_io.cpp: the loop Consumer::run with its log lines. An exception of the
-- JSON library in one of those leaves run and its thread, and so ends the process.
use choreography_saga_demo.Base.{
  ℕ, suc, String, ◌≡◌, ◌⊎◌, All, refl, sym, ◌∙◌, List, [], ◌∷◌, ◌++◌, arith, inl, inr,
}
use choreography_saga_demo.Base.Outcome.{
  Error, Outcome, ok, throws, Proc, ◌>>◌, pure, Outcome-cases,
}
use choreography_saga_demo.Json.{Json}
use choreography_saga_demo.Obs.Host.{Host, Moment, log_err}
use choreography_saga_demo.Obs.Handled.{emit-cases}
use choreography_saga_demo.Obs.Log.{emit, Telemetry}
use mathlib.Core.List.{append_assoc, append-nil}
use mathlib.Core.Path.{subst}
use choreography_saga_demo.Kafka.{
  KafkaMessage, Poll, timed_out, partition_eof, received, consume_error, Handler, Consumed,
  traceparent_of,
}

-- `what` is the text of an exception, `at` the moment of the line of a round.
module _ {S J R : Type 0} (lib : Json J) (what : Error → String) (at : ℕ → Moment)
    (handler : Handler (Host S J R)) where
  abbrev report : ℕ → String → String → Proc (Consumed (Host S J R)) (Unit {0})
  report round message text w =
      let (r, app) = log_err lib (at round) message (("error", lib.text text) ∷ []) w.app in
      (r, record w { app = app })

  unfoldable pub handle_message_logs : ℕ → KafkaMessage → Proc (Consumed (Host S J R)) (Unit {0})
  handle_message_logs round msg w =
      let (r, app) = handler round msg.topic_name msg.payload (traceparent_of msg) w.app in
      elim r [
        | ok _ ↦ (ok tt, record { app = app; commits = w.commits ++ msg ∷ [] })
        | throws e ↦
            report round "handler failed; message will be redelivered" (what e)
              (record w { app = app })
      ]

  unfoldable pub run_logs : ℕ → List Poll → Proc (Consumed (Host S J R)) (Unit {0})
  unfolding handle_message_logs
  run_logs round [] = pure tt
  run_logs round (timed_out ∷ polls) = run_logs (suc round) polls
  run_logs round (partition_eof ∷ polls) = run_logs (suc round) polls
  run_logs round (consume_error text ∷ polls) = do
    report round "kafka consume error" text
    run_logs (suc round) polls
  run_logs round (received msg ∷ polls) = do
    handle_message_logs round msg
    run_logs (suc round) polls

-- How the loop leaves: by its end, or by what the JSON library throws for the object of a log line.
-- The messages of `msgs` are those committed since the state `w`.
pub record Leaves {S J R : Type 0} (lib : Json J) (handler : Handler (Host S J R))
    (w : Consumed (Host S J R)) (r : Outcome (Unit {0})) (w' : Consumed (Host S J R)) : Type 0 where
  pub ending :
      ((e : Error) × (object : List (String × J)) × (lib.dump (lib.object object) ≡ throws e)
        × (r ≡ throws e))
      ⊎ (r ≡ ok tt)
  pub msgs : List KafkaMessage
  pub grown : w'.commits ≡ w.commits ++ msgs
  pub answered :
      All
        (λ m.
          (round : ℕ) × (h : Host S J R) × ((handler round m.topic_name m.payload
              (traceparent_of m)
              h).0
            ≡ ok tt))
        msgs

module _ {S J R : Type 0} (lib : Json J) (what : Error → String) (at : ℕ → Moment)
    (handler : Handler (Host S J R)) where
  abbrev handled : ℕ → KafkaMessage → Consumed (Host S J R) → Outcome (Unit {0}) × Host S J R
  handled round msg w = handler round msg.topic_name msg.payload (traceparent_of msg) w.app

  -- The call of log_error in a round, about an exception or a failed poll.
  abbrev written : ℕ → String → String → Host S J R → Outcome (Unit {0}) × Telemetry J R
  written round message text h =
      emit lib (at round).now (at round).span "ERROR" message (("error", lib.text text) ∷ [])
        h.telemetry

  Leaves-none :
      (w : Consumed (Host S J R)) (h : Host S J R) {r : Outcome (Unit {0})}
      {w' : Consumed (Host S J R)}
      → Leaves lib handler (record w { app = h }) r w'
      → Leaves lib handler w r w'
  Leaves-none w h l = record {
    ending = l.ending;
    msgs = l.msgs;
    grown = l.grown;
    answered = l.answered;
  }

  Leaves-one :
      (w : Consumed (Host S J R)) (round : ℕ) (msg : KafkaMessage) {r : Outcome (Unit {0})}
      {w' : Consumed (Host S J R)}
      → (handled round msg w).0 ≡ ok tt
      → Leaves lib handler
          (record { app = (handled round msg w).1; commits = w.commits ++ msg ∷ [] })
          r
          w'
      → Leaves lib handler w r w'
  Leaves-one w round msg x l = record {
    ending = l.ending;
    msgs = msg ∷ l.msgs;
    grown = l.grown ∙ append_assoc w.commits (msg ∷ []) l.msgs;
    answered = ((round, w.app, x), l.answered);
  }

  Leaves-at :
      (w : Consumed (Host S J R)) (h : Host S J R) (e : Error) (object : List (String × J))
      → lib.dump (lib.object object) ≡ throws e
      → Leaves lib handler w (throws e) (record w { app = h })
  Leaves-at w h e object x = record {
    ending = inl (e, object, x, refl);
    msgs = [];
    grown = sym (append-nil w.commits);
    answered = tt;
  }

  module _ (round : ℕ) (polls : List Poll) (w : Consumed (Host S J R)) where
    error_goes_on :
        (text line : String)
        → written round "kafka consume error" text w.app
          ≡ (ok tt, record w.app.telemetry { out = w.app.telemetry.out ++ line ∷ [] })
        → run_logs lib what at handler round (consume_error text ∷ polls) w
          ≡ run_logs lib what at handler (suc round) polls (record w {
            app = record w.app {
              telemetry = record w.app.telemetry { out = w.app.telemetry.out ++ line ∷ [] };
            };
          })
    unfolding run_logs
    error_goes_on text line x = ground (arith, x)

    error_leaves :
        (text : String) (e : Error)
        → written round "kafka consume error" text w.app ≡ (throws e, w.app.telemetry)
        → run_logs lib what at handler round (consume_error text ∷ polls) w ≡ (throws e, w)
    unfolding run_logs
    error_leaves text e x = ground (arith, x)

    handled_goes_on :
        (msg : KafkaMessage)
        → (handled round msg w).0 ≡ ok tt
        → run_logs lib what at handler round (received msg ∷ polls) w
          ≡ run_logs lib what at handler
              (suc round)
              polls
              (record { app = (handled round msg w).1; commits = w.commits ++ msg ∷ [] })
    unfolding run_logs handle_message_logs
    handled_goes_on msg x = ground (arith, x)

    module _ (msg : KafkaMessage) (e : Error) (thrown : (handled round msg w).0 ≡ throws e) where
      abbrev app : Host S J R
      app = (handled round msg w).1

      failed_goes_on :
          (line : String)
          → written round "handler failed; message will be redelivered" (what e) app
            ≡ (ok tt, record app.telemetry { out = app.telemetry.out ++ line ∷ [] })
          → run_logs lib what at handler round (received msg ∷ polls) w
            ≡ run_logs lib what at handler (suc round) polls (record w {
              app = record app {
                telemetry = record app.telemetry { out = app.telemetry.out ++ line ∷ [] };
              };
            })
      unfolding run_logs handle_message_logs
      failed_goes_on line x = ground (arith, thrown, x)

      failed_leaves :
          (e' : Error)
          → written round "handler failed; message will be redelivered" (what e) app
            ≡ (throws e', app.telemetry)
          → run_logs lib what at handler round (received msg ∷ polls) w
            ≡ (throws e', record w { app = app })
      unfolding run_logs handle_message_logs
      failed_leaves e' x = ground (arith, thrown, x)

  -- No exception of the handler leaves Consumer::run. For whatever polls, the loop returns, or it
  -- throws what the JSON library throws for the object of a log line. In both cases the messages
  -- that it has committed are messages for which the handler, in some round and state, returned
  -- without an exception.
  pub run_logs-Leaves :
      (round : ℕ) (polls : List Poll) (w : Consumed (Host S J R))
      → let (r, w') = run_logs lib what at handler round polls w in Leaves lib handler w r w'
  unfolding run_logs
  run_logs-Leaves round [] w = record {
    ending = inr refl;
    msgs = [];
    grown = sym (append-nil w.commits);
    answered = tt;
  }
  run_logs-Leaves round (timed_out ∷ polls) w = run_logs-Leaves (suc round) polls w
  run_logs-Leaves round (partition_eof ∷ polls) w = run_logs-Leaves (suc round) polls w
  run_logs-Leaves round (consume_error text ∷ polls) w =
      elim (emit-cases lib (at round).now (at round).span "ERROR" "kafka consume error"
        (("error", lib.text text) ∷ []) w.app.telemetry) [
          | inl (e, object, d, x) ↦
              subst (λ o. Leaves lib handler w o.0 o.1) (sym (error_leaves round polls w text e x))
                (Leaves-at w w.app e object d)
          | inr (line, x) ↦
              subst (λ o. Leaves lib handler w o.0 o.1)
                (sym (error_goes_on round polls w text line x))
                (Leaves-none w _ (run_logs-Leaves (suc round) polls _))
        ]
  run_logs-Leaves round (received msg ∷ polls) w = elim (Outcome-cases (handled round msg w).0) [
    | inr (t, h) ↦
        subst (λ o. Leaves lib handler w o.0 o.1) (sym (handled_goes_on round polls w msg h))
          (Leaves-one w round msg h (run_logs-Leaves (suc round) polls _))
    | inl (e, h) ↦
        elim (emit-cases lib (at round).now (at round).span "ERROR"
          "handler failed; message will be redelivered" (("error", lib.text (what e)) ∷ [])
          (handled round msg w).1.telemetry) [
            | inl (e', object, d, x) ↦
                subst (λ o. Leaves lib handler w o.0 o.1)
                  (sym (failed_leaves round polls w msg e h e' x))
                  (Leaves-at w (handled round msg w).1 e' object d)
            | inr (line, x) ↦
                subst (λ o. Leaves lib handler w o.0 o.1)
                  (sym (failed_goes_on round polls w msg e h line x))
                  (Leaves-none w _ (run_logs-Leaves (suc round) polls _))
          ]
  ]
