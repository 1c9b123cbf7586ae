-- ===== src/Kafka/Commits.antt =====
-- Which messages Consumer::run commits.
use choreography_saga_demo.Base.{
  ℕ, suc, String, ◌≡◌, sym, ◌∙◌, inl, inr, List, [], ◌∷◌, ◌++◌, arith,
}
use mathlib.Core.Path.{subst}
use mathlib.Core.List.{append_assoc, append-nil}
use choreography_saga_demo.Base.Outcome.{Error, ok, throws, Outcome-cases}
use choreography_saga_demo.Kafka.{
  KafkaMessage, Poll, timed_out, partition_eof, received, consume_error, Handler, Consumed,
  traceparent_of, handle_message, run,
}

module _ {S : Type 0} (handler : Handler S) where
  -- The messages were handled one after the other, each without an exception.
  pub data Handled : S → List KafkaMessage → S → Type 0 where
    done : {s : S} → Handled s [] s
    next :
        {s s' s'' : S} {msgs : List KafkaMessage} (round : ℕ) (msg : KafkaMessage)
        → handler round msg.topic_name msg.payload (traceparent_of msg) s ≡ (ok tt, s')
        → Handled s' msgs s''
        → Handled s (msg ∷ msgs) s''

  -- A handler that throws leaves its state as it was.
  abbrev pub RollsBack : Type 0
  RollsBack =
      (round : ℕ) (topic value traceparent : String) (e : Error) (s s' : S)
      → handler round topic value traceparent s ≡ (throws e, s')
      → s' ≡ s

  -- What a run from `w` to `w'` did.
  abbrev pub Ran : Consumed S → Consumed S → Type 0
  Ran w w' =
      (msgs : List KafkaMessage) × (w'.commits ≡ w.commits ++ msgs) × Handled w.app msgs w'.app

  module _ (rolls : RollsBack) where
    handle_message-throws :
        (round : ℕ) (msg : KafkaMessage) (w : Consumed S) (e : Error)
        → (handler round msg.topic_name msg.payload (traceparent_of msg) w.app).0 ≡ throws e
        → handle_message handler round msg w ≡ w
    unfolding handle_message
    handle_message-throws round msg w e x = ground (
      arith,
      x,
      rolls round msg.topic_name msg.payload (traceparent_of msg) e w.app
          (handler round msg.topic_name msg.payload (traceparent_of msg) w.app).1,
    )

    handle_message-ok :
        (round : ℕ) (msg : KafkaMessage) (w : Consumed S)
        → (handler round msg.topic_name msg.payload (traceparent_of msg) w.app).0 ≡ ok tt
        → handle_message handler round msg w ≡ record {
          app = (handler round msg.topic_name msg.payload (traceparent_of msg) w.app).1;
          commits = w.commits ++ msg ∷ [];
        }
    unfolding handle_message
    handle_message-ok round msg w x = ground (arith, x)

    handle_message-Ran :
        (round : ℕ) (msg : KafkaMessage) (w w' : Consumed S)
        → Ran (handle_message handler round msg w) w'
        → Ran w w'
    handle_message-Ran round msg w w' h =
        elim (Outcome-cases
          (handler round msg.topic_name msg.payload (traceparent_of msg) w.app).0) [
            | inl (e, x) ↦ subst (λ v. Ran v w') (handle_message-throws round msg w e x) h
            | inr (a, x) ↦
                let (msgs, commits, handled) =
                  subst (λ v. Ran v w') (handle_message-ok round msg w x) h in
                (
                  msg ∷ msgs,
                  commits ∙ append_assoc w.commits (msg ∷ []) msgs,
                  next round msg
                      (λ i. (
                        x i,
                        (handler round msg.topic_name msg.payload (traceparent_of msg) w.app).1,
                      ))
                      handled,
                )
          ]

    -- Over a handler that rolls back when it throws, a run commits messages that were handled without
    -- an exception, and its final state is what these, handled in the order of the commits, make of
    -- the first state: no other message left a trace.
    pub run-commits :
        (round : ℕ) (polls : List Poll) (w : Consumed S) → Ran w (run handler round polls w)
    unfolding run
    run-commits round [] w = ([], sym (append-nil w.commits), done)
    run-commits round (timed_out ∷ polls) w = run-commits (suc round) polls w
    run-commits round (partition_eof ∷ polls) w = run-commits (suc round) polls w
    run-commits round (consume_error e ∷ polls) w = run-commits (suc round) polls w
    run-commits round (received msg ∷ polls) w =
        handle_message-Ran round msg w
          (run handler (suc round) (polls) (handle_message handler round msg w))
          (run-commits (suc round) polls (handle_message handler round msg w))
