-- ===== src/Process/Lifecycle/Stop.antt =====
-- What a signal does once the consumer is in its loop.
use choreography_saga_demo.Base.{
  ℕ, suc, zero, ◌≤◌, ◌≡◌, ◌≢◌, refl, Bool, true, false, List, [], ◌∷◌, length, if◌then◌else◌, arith,
  leb, ◌⊎◌,
}
use choreography_saga_demo.Process.Lifecycle.{
  MainPc, stopped, RelayPc, ConsumerPc, Service, main_step, relay_step, consumer_step, Move,
  main_moves, relay_moves, consumer_moves, move, signal, stop, Event, signalled, handled, happen,
  happen_all, move_all, started,
}
use choreography_saga_demo.Process.Lifecycle.Wiring.{
  IsWired, steps_done, consumer_made, move-IsWired, happen-IsWired, service-IsWired,
}
use choreography_saga_demo.Process.Lifecycle.Advance.{stuck_or_moves}
use choreography_saga_demo.Process.Lifecycle.Rank.{
  entered, IsStopping, IsBusy, move_all-left, move_all-IsStopping, steps_left-bound,
}

-- Between the two halves of the handler, the consumer in its loop.
record IsTold (s : Service) : Type 0 where
  pub wired : IsWired s
  pub inside : entered s.consumer ≡ true
  pub told_relay : s.g_stop ≡ true
  pub handlers : (n : ℕ) × (s.handlers ≡ suc n)

main_step-IsTold :
    (pc : MainPc) (s : Service)
    → s.main ≡ pc
    → IsTold s
    → IsWired (main_step pc s)
    → IsTold (main_step pc s)
main_step-IsTold pc s at h w = record {
  wired = w;
  inside = ground (arith, h.inside, h.wired.consumer_there);
  told_relay = ground (arith, h.told_relay);
  handlers = (h.handlers.0, ground (arith, h.handlers.1));
}

relay_step-IsTold :
    (pc : RelayPc) (s : Service) → IsTold s → IsWired (relay_step pc s) → IsTold (relay_step pc s)
relay_step-IsTold pc s h w = record {
  wired = w;
  inside = ground (arith, h.inside);
  told_relay = ground (arith, h.told_relay);
  handlers = (h.handlers.0, ground (arith, h.handlers.1));
}

consumer_step-IsTold :
    (pc : ConsumerPc) (s : Service)
    → s.consumer ≡ pc
    → IsTold s
    → IsWired (consumer_step pc s)
    → IsTold (consumer_step pc s)
consumer_step-IsTold pc s at h w = record {
  wired = w;
  inside = ground (arith, h.inside);
  told_relay = ground (arith, h.told_relay);
  handlers = (h.handlers.0, ground (arith, h.handlers.1));
}

move-IsTold : (m : Move) (s : Service) → IsTold s → IsTold (move m s)
move-IsTold main_moves s h = main_step-IsTold s.main s refl h (move-IsWired main_moves s h.wired)
move-IsTold relay_moves s h = relay_step-IsTold s.relay s h (move-IsWired relay_moves s h.wired)
move-IsTold consumer_moves s h =
    consumer_step-IsTold s.consumer s refl h (move-IsWired consumer_moves s h.wired)

move_all-IsTold : (ms : List Move) (s : Service) → IsTold s → IsTold (move_all ms s)
move_all-IsTold [] s h = h
move_all-IsTold (m ∷ ms) s h = move_all-IsTold ms (move m s) (move-IsTold m s h)

stop-IsStopping :
    (n : ℕ) (s : Service) → s.handlers ≡ n → IsTold s → IsWired (stop n s) → IsStopping (stop n s)
stop-IsStopping zero s e h w = absurd (omega (arith, e, h.handlers.1))
stop-IsStopping (suc n) s e h w = record {
  wired = w;
  inside = h.inside;
  told_relay = h.told_relay;
  told_consumer =
      known s.main s.consumer s.g_consumer s.running h.inside h.wired.known h.wired.consumer_there;
}
  where
    known :
        (m : MainPc) (c : ConsumerPc) (k r : Bool)
        → entered c ≡ true
        → k ≡ leb 2 (steps_done m)
        → consumer_made c ≡ leb 3 (steps_done m)
        → (if k then false else r) ≡ false
    known m c k r i e t = ground (arith, i, e, t)

signalled-IsTold : (s : Service) → IsWired s → entered s.consumer ≡ true → IsTold (signal s)
signalled-IsTold s w i = record {
  wired = happen-IsWired signalled s w;
  inside = i;
  told_relay = refl;
  handlers = (s.handlers, refl);
}

-- The service from its start, any signals before, in the loop of `run`: a signal is caught, the threads
-- move while its handler is at work, and the handler ends. Then the threads together make at most nine
-- more steps that do something, whatever the order, and after those they have made, main has returned
-- or one of them still has a step to make. A round of a loop is one step, that ends.
pub stop-terminates :
    (before : List Event) (between after : List Move)
    → entered (happen_all before started).consumer ≡ true
    → IsBusy after
        (happen handled (move_all between (happen signalled (happen_all before started))))
    → let s =
        move_all after
          (happen handled (move_all between (happen signalled (happen_all before started)))) in
      (length after ≤ 9) × ((s.main ≡ stopped) ⊎ ((m : Move) × (move m s ≢ s)))
stop-terminates before between after i busy =
    let told = move_all-IsTold between _ (signalled-IsTold _ (service-IsWired before) i) in
    let u : Service = move_all between (signal (happen_all before started)) in
    let h = stop-IsStopping u.handlers u refl told (happen-IsWired handled u told.wired) in
    (
      omega (arith, move_all-left after _ h busy, steps_left-bound _ h),
      stuck_or_moves _ (move_all-IsStopping after _ h),
    )
