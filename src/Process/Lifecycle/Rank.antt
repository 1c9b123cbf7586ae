-- ===== src/Process/Lifecycle/Rank.antt =====
-- The steps that the threads have left, once both loops have been told to stop.
use choreography_saga_demo.Base.{
  ℕ, ◌+◌, ◌≤◌, ◌≡◌, ◌≢◌, refl, Bool, true, false, List, [], ◌∷◌, length, arith, leb, ◌⊎◌, inl, inr,
  Bool-cases,
}
use choreography_saga_demo.Process.Lifecycle.{
  MainPc, starting_relay, registering, starting_consumer, joining_consumer, shutting_down,
  setting_stop, joining_relay, stopped, RelayPc, relay_absent, relay_tests, relay_drains,
  relay_sleeps, relay_ended, ConsumerPc, consumer_absent, consumer_enters, consumer_tests,
  consumer_consumes, consumer_ended, Service, relay_done, consumer_done, main_step, relay_step,
  consumer_step, Move, main_moves, relay_moves, consumer_moves, move, move_all,
}
use choreography_saga_demo.Process.Lifecycle.Wiring.{
  IsWired, steps_done, consumer_made, move-IsWired,
}

-- How many steps a thread has left, once the flags are set.
abbrev pub main_left : MainPc → ℕ
main_left starting_relay = 9
main_left registering = 6
main_left starting_consumer = 5
main_left joining_consumer = 4
main_left shutting_down = 3
main_left setting_stop = 2
main_left joining_relay = 1
main_left stopped = 0

abbrev pub relay_left : RelayPc → ℕ
relay_left relay_absent = 0
relay_left relay_tests = 1
relay_left relay_sleeps = 2
relay_left relay_drains = 3
relay_left relay_ended = 0

abbrev pub consumer_left : ConsumerPc → ℕ
consumer_left consumer_absent = 0
consumer_left consumer_enters = 0
consumer_left consumer_tests = 1
consumer_left consumer_consumes = 2
consumer_left consumer_ended = 0

abbrev pub steps_left : Service → ℕ
steps_left s = main_left s.main + relay_left s.relay + consumer_left s.consumer

-- The consumer's thread is in the loop of `run`, or behind it.
abbrev pub entered : ConsumerPc → Bool
entered consumer_absent = false
entered consumer_enters = false
entered consumer_tests = true
entered consumer_consumes = true
entered consumer_ended = true

pub record IsStopping (s : Service) : Type 0 where
  pub wired : IsWired s
  pub inside : entered s.consumer ≡ true
  pub told_relay : s.g_stop ≡ true
  pub told_consumer : s.running ≡ false

-- Each move does something.
abbrev pub IsBusy : List Move → Service → Type 0
IsBusy [] s = Unit
IsBusy (m ∷ ms) s = (move m s ≢ s) × IsBusy ms (move m s)

main_step-left :
    (pc : MainPc) (s : Service)
    → s.main ≡ pc
    → IsStopping s
    → (main_step pc s ≡ s) ⊎ (steps_left (main_step pc s) + 1 ≤ steps_left s)
main_step-left joining_consumer s at h = elim (Bool-cases (consumer_done s.consumer)) [
  | inl e ↦ inr (ground (arith, e))
  | inr e ↦ inl (ground (arith, e))
]
main_step-left joining_relay s at h = elim (Bool-cases (relay_done s.relay)) [
  | inl e ↦ inr (ground (arith, e))
  | inr e ↦ inl (ground (arith, e))
]
main_step-left stopped s at h = inl refl
main_step-left pc s at h = inr (ground (arith, at))

main_step-IsStopping :
    (pc : MainPc) (s : Service)
    → s.main ≡ pc
    → IsStopping s
    → IsWired (main_step pc s)
    → IsStopping (main_step pc s)
main_step-IsStopping pc s at h w = record {
  wired = w;
  inside = ground (arith, h.inside, h.wired.consumer_there);
  told_relay = ground (arith, h.told_relay);
  told_consumer = ground (arith, h.told_consumer);
}

relay_step-left :
    (pc : RelayPc) (s : Service)
    → s.relay ≡ pc
    → IsStopping s
    → (relay_step pc s ≡ s) ⊎ (steps_left (relay_step pc s) + 1 ≤ steps_left s)
relay_step-left relay_absent s at h = inl refl
relay_step-left relay_ended s at h = inl refl
relay_step-left pc s at h = inr (ground (arith, at, h.told_relay))

consumer_step-left :
    (pc : ConsumerPc) (s : Service)
    → s.consumer ≡ pc
    → IsStopping s
    → (consumer_step pc s ≡ s) ⊎ (steps_left (consumer_step pc s) + 1 ≤ steps_left s)
consumer_step-left consumer_absent s at h = inl refl
consumer_step-left consumer_ended s at h = inl refl
consumer_step-left consumer_enters s at h = absurd (ground (arith, at, h.inside))
consumer_step-left pc s at h = inr (ground (arith, at, h.told_consumer))

move-left :
    (m : Move) (s : Service)
    → IsStopping s
    → (move m s ≡ s) ⊎ (steps_left (move m s) + 1 ≤ steps_left s)
move-left main_moves s h = main_step-left s.main s refl h
move-left relay_moves s h = relay_step-left s.relay s refl h
move-left consumer_moves s h = consumer_step-left s.consumer s refl h

relay_step-IsStopping :
    (pc : RelayPc) (s : Service)
    → s.relay ≡ pc
    → IsStopping s
    → IsWired (relay_step pc s)
    → IsStopping (relay_step pc s)
relay_step-IsStopping pc s at h w = record {
  wired = w;
  inside = ground (arith, h.inside);
  told_relay = ground (arith, h.told_relay);
  told_consumer = ground (arith, h.told_consumer);
}

consumer_step-IsStopping :
    (pc : ConsumerPc) (s : Service)
    → s.consumer ≡ pc
    → IsStopping s
    → IsWired (consumer_step pc s)
    → IsStopping (consumer_step pc s)
consumer_step-IsStopping pc s at h w = record {
  wired = w;
  inside = ground (arith, h.inside, h.told_consumer);
  told_relay = ground (arith, h.told_relay);
  told_consumer = ground (arith, h.told_consumer, h.inside);
}

move-IsStopping : (m : Move) (s : Service) → IsStopping s → IsStopping (move m s)
move-IsStopping main_moves s h =
    main_step-IsStopping s.main s refl h (move-IsWired main_moves s h.wired)
move-IsStopping relay_moves s h =
    relay_step-IsStopping s.relay s refl h (move-IsWired relay_moves s h.wired)
move-IsStopping consumer_moves s h =
    consumer_step-IsStopping s.consumer s refl h (move-IsWired consumer_moves s h.wired)

pub move_all-left :
    (ms : List Move) (s : Service)
    → IsStopping s
    → IsBusy ms s
    → length ms + steps_left (move_all ms s) ≤ steps_left s
move_all-left [] s h busy = omega arith
move_all-left (m ∷ ms) s h busy = elim (move-left m s h) [
  | inl same ↦ absurd (busy.0 same)
  | inr less ↦ omega (arith, less, move_all-left ms (move m s) (move-IsStopping m s h) busy.1)
]

pub move_all-IsStopping : (ms : List Move) (s : Service) → IsStopping s → IsStopping (move_all ms s)
move_all-IsStopping [] s h = h
move_all-IsStopping (m ∷ ms) s h = move_all-IsStopping ms (move m s) (move-IsStopping m s h)

main_left-bound :
    (m : MainPc) (c : ConsumerPc)
    → entered c ≡ true
    → consumer_made c ≡ leb 3 (steps_done m)
    → main_left m ≤ 4
main_left-bound m c i k = ground (arith, i, k)

relay_left-bound : (r : RelayPc) → relay_left r ≤ 3
relay_left-bound r = ground arith

consumer_left-bound : (c : ConsumerPc) → consumer_left c ≤ 2
consumer_left-bound c = ground arith

pub steps_left-bound : (s : Service) → IsStopping s → steps_left s ≤ 9
steps_left-bound s h = omega (
  arith,
  main_left-bound s.main s.consumer h.inside h.wired.consumer_there,
  relay_left-bound s.relay,
  consumer_left-bound s.consumer,
)
