-- ===== src/Process/Callback.antt =====
-- services/inventory/src/main.cpp: the callback of the consumer with its span and its log line.
use mathlib.Core.Path.{subst}
use choreography_saga_demo.Base.{
  ℕ, String, text_dec, ◌≡◌, ◌≢◌, ◌∙◌, sym, List, none, ite, arith, ap,
}
use choreography_saga_demo.Base.Outcome.{ok, Proc, ◌>>=◌, pure, lift}
use choreography_saga_demo.Repository.{ReleaseOutcome, Repository}
use choreography_saga_demo.Json.{Json}
use choreography_saga_demo.Envelope.{Entropy, parse}
use choreography_saga_demo.Obs.Spans.{Spans, running, find_scope, starts}
use choreography_saga_demo.Obs.Host.{Host, Moment, with_span, then_act, spanned}
use choreography_saga_demo.Obs.Handled.{
  call_and_log-repo, Handled, IsHandled, call_and_log, call_and_log-IsHandled,
}
use choreography_saga_demo.App.{
  topic_order_cancelled, consumer_order_cancelled, build_release_event, event_traceparent,
  handle_order_cancelled,
}
use choreography_saga_demo.App.Logs.{
  inventory_app, InventoryApp, cancelled_line, order_cancelled_logs,
}
use choreography_saga_demo.Process.{on_message}

module _ {J S R : Type 0} (lib : Json J) (app : InventoryApp S J R) (entropy : Entropy)
    (at : Moment) (v : ℕ) where
  -- The callback for a message of the topic.
  unfoldable pub consume : String → String → String → Proc (Host S J R) (Unit {0})
  consume topic value traceparent =
      ite (text_dec topic topic_order_cancelled)
        (with_span v "consume order.cancelled" traceparent
          do env ← lift (parse lib value); app.handle_order_cancelled entropy at env traceparent)
        (pure tt)

module _ {J S : Type 0} (lib : Json J) (repo : Repository S) (entropy : Entropy) where
  -- The message is read, and the reservation of its saga is released.
  unfoldable pub cancel_call : String → String → Proc S (String × ReleaseOutcome)
  cancel_call value traceparent = do
    env ← lift (parse lib value)
    reservation_id ← lift (lib.value_text env.payload "reservationId" "")
    outcome ← repo.release env.saga_id reservation_id env.idempotency_key consumer_order_cancelled (
        build_release_event lib entropy env.saga_id reservation_id
          (event_traceparent lib entropy repo env traceparent))
    pure (env.saga_id, outcome)

abbrev pub saga_line : {J : Type 0} → Json J → String × ReleaseOutcome → String × List (String × J)
saga_line lib (saga_id, outcome) = cancelled_line lib saga_id outcome

module _ {J S R : Type 0} (lib : Json J) (repo : Repository S) (entropy : Entropy) (at : Moment)
    (v : ℕ) (h : Host S J R) where
  pub consume-calls :
      (value traceparent : String)
      → consume lib (inventory_app lib repo) entropy at v topic_order_cancelled value traceparent h
        ≡ with_span v "consume order.cancelled" traceparent
            (call_and_log lib at
              (cancel_call lib repo entropy value traceparent)
              (saga_line lib)
              (λ o. tt)
              (λ o t. t))
            h
  unfolding consume order_cancelled_logs cancel_call text_dec
  consume-calls value traceparent = ground arith

  pub cancel_call-on_message :
      (round : ℕ) (value traceparent : String) (d : S)
      → (cancel_call lib repo entropy value traceparent d).1
        ≡ (on_message lib repo (λ _. entropy) round topic_order_cancelled value traceparent d).1
  unfolding cancel_call on_message handle_order_cancelled text_dec
  cancel_call-on_message round value traceparent d = ground arith

  -- A message of the topic order.cancelled, where the variable `span` is not alive yet. The repository
  -- is left as on_message leaves it, in whatever round. If there is a tracer, one span more has been
  -- started, with the message's trace as its parent, and has ended. Where the message cannot be read, or
  -- the repository throws, the callback throws the same and writes no line. Else one line is written,
  -- with the saga and the outcome; or, if the JSON library cannot write the line, the callback throws
  -- what it threw.
  pub consume-IsHandled :
      (s : Spans) (round : ℕ) (value traceparent : String)
      → h.spans ≡ running s
      → find_scope v s.scopes ≡ none
      → let (r, h') =
          consume lib
            (inventory_app lib repo)
            entropy
            at
            v
            topic_order_cancelled
            value
            traceparent
            h in
        (h'.repo
          ≡ (on_message lib repo
              (λ _. entropy)
              round
              topic_order_cancelled
              value
              traceparent
              h.repo).1)
        × (h'.spans ≡ running (spanned "consume order.cancelled" traceparent s))
        × Handled lib at h.telemetry
            (cancel_call lib repo entropy value traceparent h.repo).0
            (saga_line lib)
            (λ o. tt)
            (λ o t. t)
            r
            h'.telemetry
  consume-IsHandled s round value traceparent up new =
      let handled : _ =
        subst
          (IsHandled lib at (cancel_call lib repo entropy value traceparent) (saga_line lib)
            (λ o. tt) (λ o t. t) v "consume order.cancelled" traceparent h s up new)
          (sym (consume-calls value traceparent))
          (call_and_log-IsHandled lib at (cancel_call lib repo entropy value traceparent)
            (saga_line lib) (λ o. tt) (λ o t. t) v "consume order.cancelled" traceparent h s up
            new) in
      (handled.0 ∙ cancel_call-on_message round value traceparent h.repo, handled.1, handled.2)

  consume-repo :
      (round : ℕ) (value traceparent : String)
      → (consume lib
          (inventory_app lib repo)
          entropy
          at
          v
          topic_order_cancelled
          value
          traceparent
          h).1.repo
        ≡ (on_message lib repo
            (λ _. entropy)
            round
            topic_order_cancelled
            value
            traceparent
            h.repo).1
  consume-repo round value traceparent =
      ap (λ x. x.1.repo) (consume-calls value traceparent)
      ∙ call_and_log-repo {R = R} {A = Unit {0}} lib at
          (cancel_call lib repo entropy value traceparent) (saga_line lib) (λ o. tt) (λ o t. t)
          (record h { spans = then_act (starts v "consume order.cancelled" traceparent) h.spans })
      ∙ cancel_call-on_message round value traceparent h.repo

  -- A message of another topic changes nothing.
  pub consume-other :
      (topic value traceparent : String)
      → topic ≢ topic_order_cancelled
      → consume lib (inventory_app lib repo) entropy at v topic value traceparent h ≡ (ok tt, h)
  unfolding consume
  consume-other topic value traceparent other = ground (arith, other)

  on_message-other :
      (round : ℕ) (topic value traceparent : String) (d : S)
      → topic ≢ topic_order_cancelled
      → on_message lib repo (λ _. entropy) round topic value traceparent d ≡ (ok tt, d)
  unfolding on_message
  on_message-other round topic value traceparent d other = ground (arith, other)

  -- Whatever the topic, the repository is left as on_message leaves it.
  pub consume-on_message :
      (round : ℕ) (topic value traceparent : String)
      → (consume lib (inventory_app lib repo) entropy at v topic value traceparent h).1.repo
        ≡ (on_message lib repo (λ _. entropy) round topic value traceparent h.repo).1
  consume-on_message round topic value traceparent = elim (text_dec topic topic_order_cancelled) [
    | yes same ↦ rw same (consume-repo round value traceparent)
    | no other ↦
        ap (λ x. x.1.repo) (consume-other topic value traceparent other)
        ∙ sym (ap (λ x. x.1) (on_message-other round topic value traceparent h.repo other))
  ]
