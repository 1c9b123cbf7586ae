-- ===== src/Process/Lifecycle/Wiring.antt =====
-- What holds of main and its threads in every state that the service can be in.
use choreography_saga_demo.Base.{
  ℕ, suc, zero, ◌≡◌, refl, Bool, true, false, List, [], ◌∷◌, arith, leb,
}
use choreography_saga_demo.Process.Lifecycle.{
  MainPc, starting_relay, registering, starting_consumer, joining_consumer, shutting_down,
  setting_stop, joining_relay, stopped, RelayPc, relay_absent, relay_tests, relay_drains,
  relay_sleeps, relay_ended, ConsumerPc, consumer_absent, consumer_enters, consumer_tests,
  consumer_consumes, consumer_ended, Service, relay_done, consumer_done, main_step, relay_step,
  consumer_step, Move, main_moves, relay_moves, consumer_moves, move, stop, Event, moves, signalled,
  handled, happen, happen_all, started,
}

-- How many of its steps main has done.
abbrev pub steps_done : MainPc → ℕ
steps_done starting_relay = 0
steps_done registering = 1
steps_done starting_consumer = 2
steps_done joining_consumer = 3
steps_done shutting_down = 4
steps_done setting_stop = 5
steps_done joining_relay = 6
steps_done stopped = 7

abbrev pub relay_made : RelayPc → Bool
relay_made relay_absent = false
relay_made relay_tests = true
relay_made relay_drains = true
relay_made relay_sleeps = true
relay_made relay_ended = true

abbrev pub consumer_made : ConsumerPc → Bool
consumer_made consumer_absent = false
consumer_made consumer_enters = true
consumer_made consumer_tests = true
consumer_made consumer_consumes = true
consumer_made consumer_ended = true

-- Each thread is there from its line of main on, and main has passed a join only when the thread has ended.
pub record IsWired (s : Service) : Type 0 where
  pub relay_there : relay_made s.relay ≡ leb 1 (steps_done s.main)
  pub known : s.g_consumer ≡ leb 2 (steps_done s.main)
  pub consumer_there : consumer_made s.consumer ≡ leb 3 (steps_done s.main)
  pub consumer_joined : leb 4 (steps_done s.main) ≡ true → consumer_done s.consumer ≡ true
  pub relay_joined : leb 7 (steps_done s.main) ≡ true → relay_done s.relay ≡ true

main_step-IsWired : (pc : MainPc) (s : Service) → s.main ≡ pc → IsWired s → IsWired (main_step pc s)
main_step-IsWired starting_relay s at h = record {
  relay_there = ground (arith, h.relay_there);
  known = ground (arith, h.known);
  consumer_there = ground (arith, h.consumer_there);
  consumer_joined = λ j. ground (arith, h.consumer_joined);
  relay_joined = λ j. ground (arith, h.relay_joined);
}
main_step-IsWired pc s at h = record {
  relay_there = ground (arith, h.relay_there);
  known = ground (arith, h.known);
  consumer_there = ground (arith, h.consumer_there);
  consumer_joined = λ j. ground (arith, h.consumer_joined);
  relay_joined = λ j. ground (arith, h.relay_joined);
}

relay_step-IsWired :
    (pc : RelayPc) (s : Service) → s.relay ≡ pc → IsWired s → IsWired (relay_step pc s)
relay_step-IsWired relay_ended s at h = h
relay_step-IsWired pc s at h = record {
  relay_there = ground (arith, h.relay_there);
  known = ground (arith, h.known);
  consumer_there = ground (arith, h.consumer_there);
  consumer_joined = λ j. ground (arith, h.consumer_joined);
  relay_joined = λ j. ground (arith, h.relay_joined);
}

consumer_step-IsWired :
    (pc : ConsumerPc) (s : Service) → s.consumer ≡ pc → IsWired s → IsWired (consumer_step pc s)
consumer_step-IsWired consumer_ended s at h = h
consumer_step-IsWired pc s at h = record {
  relay_there = ground (arith, h.relay_there);
  known = ground (arith, h.known);
  consumer_there = ground (arith, h.consumer_there);
  consumer_joined = λ j. ground (arith, h.consumer_joined);
  relay_joined = λ j. ground (arith, h.relay_joined);
}

stop-IsWired : (n : ℕ) (s : Service) → IsWired s → IsWired (stop n s)
stop-IsWired zero s h = h
stop-IsWired (suc n) s h = record {
  relay_there = ground (arith, h.relay_there);
  known = ground (arith, h.known);
  consumer_there = ground (arith, h.consumer_there);
  consumer_joined = λ j. ground (arith, h.consumer_joined);
  relay_joined = λ j. ground (arith, h.relay_joined);
}

pub move-IsWired : (m : Move) (s : Service) → IsWired s → IsWired (move m s)
move-IsWired main_moves s h = main_step-IsWired s.main s refl h
move-IsWired relay_moves s h = relay_step-IsWired s.relay s refl h
move-IsWired consumer_moves s h = consumer_step-IsWired s.consumer s refl h

pub happen-IsWired : (e : Event) (s : Service) → IsWired s → IsWired (happen e s)
happen-IsWired (moves m) s h = move-IsWired m s h
happen-IsWired signalled s h = record {
  relay_there = h.relay_there;
  known = h.known;
  consumer_there = h.consumer_there;
  consumer_joined = h.consumer_joined;
  relay_joined = h.relay_joined;
}
happen-IsWired handled s h = stop-IsWired s.handlers s h

happen_all-IsWired : (es : List Event) (s : Service) → IsWired s → IsWired (happen_all es s)
happen_all-IsWired [] s h = h
happen_all-IsWired (e ∷ es) s h = happen_all-IsWired es (happen e s) (happen-IsWired e s h)

pub service-IsWired : (es : List Event) → IsWired (happen_all es started)
service-IsWired es = happen_all-IsWired es started (record {
  relay_there = refl;
  known = refl;
  consumer_there = refl;
  consumer_joined = λ j. ground arith;
  relay_joined = λ j. ground arith;
})

-- Whatever signals come and however the threads are interleaved: when main has returned, both threads
-- have ended, so none of them uses what main has destroyed.
pub stopped-done :
    (events : List Event)
    → (happen_all events started).main ≡ stopped
    → relay_done (happen_all events started).relay ≡ true
      × consumer_done (happen_all events started).consumer ≡ true
stopped-done events at =
    let h = service-IsWired events in (h.relay_joined (rw at refl), h.consumer_joined (rw at refl))
