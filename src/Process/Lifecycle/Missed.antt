-- ===== src/Process/Lifecycle/Missed.antt =====
-- What becomes of a signal that comes before the consumer is in its loop.
use choreography_saga_demo.Base.{◌≤◌, ◌≡◌, refl, true, false, List, [], ◌∷◌, arith}
use choreography_saga_demo.Process.Lifecycle.{
  MainPc, joining_consumer, RelayPc, ConsumerPc, Service, consumer_done, main_step, relay_step,
  consumer_step, Move, main_moves, relay_moves, consumer_moves, Event, signalled, handled, happen,
  happen_all, move_all, started,
}
use choreography_saga_demo.Process.Lifecycle.Wiring.{IsWired, steps_done, service-IsWired}
use choreography_saga_demo.Process.Lifecycle.Rank.{entered}

-- The consumer has not entered its loop, or runs in it and was not told to stop; the relay was.
record IsMissed (s : Service) : Type 0 where
  pub early : steps_done s.main ≤ 3
  pub told_relay : s.g_stop ≡ true
  pub not_told : entered s.consumer ≡ true → s.running ≡ true
  pub not_done : consumer_done s.consumer ≡ false

main_step-IsMissed :
    (pc : MainPc) (s : Service) → s.main ≡ pc → IsMissed s → IsMissed (main_step pc s)
main_step-IsMissed pc s at h = record {
  early = ground (arith, h.early, h.not_done);
  told_relay = ground (arith, h.told_relay);
  not_told = λ j. ground (arith, h.not_told);
  not_done = ground (arith, h.not_done);
}

relay_step-IsMissed : (pc : RelayPc) (s : Service) → IsMissed s → IsMissed (relay_step pc s)
relay_step-IsMissed pc s h = record {
  early = ground (arith, h.early);
  told_relay = ground (arith, h.told_relay);
  not_told = λ j. ground (arith, h.not_told);
  not_done = ground (arith, h.not_done);
}

consumer_step-IsMissed :
    (pc : ConsumerPc) (s : Service) → s.consumer ≡ pc → IsMissed s → IsMissed (consumer_step pc s)
consumer_step-IsMissed pc s at h = record {
  early = ground (arith, h.early);
  told_relay = ground (arith, h.told_relay);
  not_told = λ j. ground (arith, h.not_told);
  not_done = ground (arith, h.not_done, h.not_told);
}

move_all-IsMissed : (ms : List Move) (s : Service) → IsMissed s → IsMissed (move_all ms s)
move_all-IsMissed [] s h = h
move_all-IsMissed (main_moves ∷ ms) s h =
    move_all-IsMissed ms _ (main_step-IsMissed s.main s refl h)
move_all-IsMissed (relay_moves ∷ ms) s h = move_all-IsMissed ms _ (relay_step-IsMissed s.relay s h)
move_all-IsMissed (consumer_moves ∷ ms) s h =
    move_all-IsMissed ms _ (consumer_step-IsMissed s.consumer s refl h)

outside_done : (c : ConsumerPc) → entered c ≡ false → consumer_done c ≡ false
outside_done c out = ground (arith, out)

handled-IsMissed :
    (s : Service)
    → IsWired s
    → entered s.consumer ≡ false
    → IsMissed (happen handled (happen signalled s))
handled-IsMissed s w out = record {
  early = ground (arith, w.consumer_joined, outside_done s.consumer out);
  told_relay = refl;
  not_told = λ j. absurd (ground (arith, j, out));
  not_done = outside_done s.consumer out;
}

-- The service from its start, any signals before: a signal whose handler runs while `run` has not yet
-- set running_ is lost to the consumer. Until another signal comes, however the threads move, main does
-- not get past joining the consumer's thread, that thread does not end, and g_stop stays set, by which
-- the relay's loop ends.
pub stop-missed :
    (before : List Event) (after : List Move)
    → entered (happen_all before started).consumer ≡ false
    → let s = move_all after (happen handled (happen signalled (happen_all before started))) in
      (steps_done s.main ≤ steps_done joining_consumer)
      × (consumer_done s.consumer ≡ false)
      × (s.g_stop ≡ true)
stop-missed before after out =
    let h = move_all-IsMissed after _ (handled-IsMissed _ (service-IsWired before) out) in
    (h.early, h.not_done, h.told_relay)
