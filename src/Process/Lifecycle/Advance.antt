-- ===== src/Process/Lifecycle/Advance.antt =====
-- Once both loops have been told to stop, a thread can move until main has returned.
use choreography_saga_demo.Base.{
  ◌+◌, ◌≤◌, ◌≡◌, ◌≢◌, refl, sym, ap, ◌∙◌, true, false, arith, leb, ◌⊎◌, inl, inr, Bool-cases,
}
use choreography_saga_demo.Process.Lifecycle.{
  MainPc, stopped, RelayPc, relay_absent, relay_ended, ConsumerPc, consumer_absent, consumer_enters,
  consumer_ended, Service, relay_done, consumer_done, main_step, relay_step, consumer_step, Move,
  main_moves, relay_moves, consumer_moves, move,
}
use choreography_saga_demo.Process.Lifecycle.Wiring.{steps_done, relay_made, consumer_made}
use choreography_saga_demo.Process.Lifecycle.Rank.{steps_left, entered, IsStopping}

consumer_advances :
    (pc : ConsumerPc) (s : Service)
    → s.consumer ≡ pc
    → IsStopping s
    → consumer_done pc ≡ false
    → steps_left (consumer_step pc s) + 1 ≤ steps_left s
consumer_advances consumer_absent s at h d = absurd (ground (arith, at, h.inside))
consumer_advances consumer_enters s at h d = absurd (ground (arith, at, h.inside))
consumer_advances consumer_ended s at h d = absurd (ground (arith, d))
consumer_advances pc s at h d = ground (arith, at, h.told_consumer)

relay_advances :
    (pc : RelayPc) (s : Service)
    → s.relay ≡ pc
    → IsStopping s
    → relay_done pc ≡ false
    → steps_left (relay_step pc s) + 1 ≤ steps_left s
relay_advances relay_absent s at h d = absurd (
    there s.consumer s.main h.inside h.wired.consumer_there
      (ap relay_made (sym at) ∙ h.wired.relay_there))
  where
    there :
        (c : ConsumerPc) (m : MainPc)
        → entered c ≡ true
        → consumer_made c ≡ leb 3 (steps_done m)
        → false ≡ leb 1 (steps_done m)
        → ⊥
    there c m i k l = ground (arith, i, k, l)
relay_advances relay_ended s at h d = absurd (ground (arith, d))
relay_advances pc s at h d = ground (arith, at, h.told_relay)

main_advances :
    (pc : MainPc) (s : Service)
    → s.main ≡ pc
    → consumer_done s.consumer ≡ true
    → relay_done s.relay ≡ true
    → (pc ≡ stopped) ⊎ (steps_left (main_step pc s) + 1 ≤ steps_left s)
main_advances stopped s at c r = inl refl
main_advances pc s at c r = inr (ground (arith, at, c, r))

-- Some thread can move, or main has returned.
some_advances :
    (s : Service)
    → IsStopping s
    → (s.main ≡ stopped) ⊎ ((m : Move) × (steps_left (move m s) + 1 ≤ steps_left s))
some_advances s h = elim (Bool-cases (consumer_done s.consumer)) [
  | inr c ↦ inr (consumer_moves, consumer_advances s.consumer s refl h c)
  | inl c ↦ elim (Bool-cases (relay_done s.relay)) [
    | inr r ↦ inr (relay_moves, relay_advances s.relay s refl h r)
    | inl r ↦ elim (main_advances s.main s refl c r) [
      | inl e ↦ inl e
      | inr less ↦ inr (main_moves, less)
    ]
  ]
]

pub stuck_or_moves :
    (s : Service) → IsStopping s → (s.main ≡ stopped) ⊎ ((m : Move) × (move m s ≢ s))
stuck_or_moves s h = elim (some_advances s h) [
  | inl e ↦ inl e
  | inr (m, less) ↦ inr (m, λ same. omega (arith, less, ap steps_left same))
]
