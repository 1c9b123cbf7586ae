-- ===== src/Tests/Lifecycle.antt =====
-- The life of the service and of its tracing scopes at concrete runs.
use choreography_saga_demo.Base.{
  ◌≤◌, ◌≡◌, ◌≢◌, refl, ap, true, false, List, [], ◌∷◌, length, arith, ◌⊎◌,
}
use choreography_saga_demo.Process.Lifecycle.{
  joining_consumer, stopped, relay_done, consumer_done, Move, main_moves, relay_moves,
  consumer_moves, move, Event, moves, signalled, handled, happen, happen_all, move_all, started,
}
use choreography_saga_demo.Process.Lifecycle.Wiring.{steps_done, stopped-done}
use choreography_saga_demo.Process.Lifecycle.Rank.{IsBusy, steps_left}
use choreography_saga_demo.Process.Lifecycle.Stop.{stop-terminates}
use choreography_saga_demo.Process.Lifecycle.Missed.{stop-missed}

-- main makes both threads, and they enter their loops.
abbrev up : List Event
up =
    moves main_moves
    ∷ moves relay_moves
    ∷ moves main_moves
    ∷ moves main_moves
    ∷ moves consumer_moves
    ∷ moves consumer_moves
    ∷ []

-- The consumer's round ends while the handler runs; then all threads end.
abbrev down : List Move
down =
    consumer_moves ∷ main_moves ∷ relay_moves ∷ relay_moves ∷ main_moves ∷ main_moves ∷ relay_moves
    ∷ main_moves ∷ []

down-IsBusy :
    IsBusy down
      (happen handled (move_all (consumer_moves ∷ []) (happen signalled (happen_all up started))))
down-IsBusy = (
  λ e. omega (arith, ap steps_left e),
  (
    λ e. omega (arith, ap steps_left e),
    (
      λ e. omega (arith, ap steps_left e),
      (
        λ e. omega (arith, ap steps_left e),
        (
          λ e. omega (arith, ap steps_left e),
          (
            λ e. omega (arith, ap steps_left e),
            (λ e. omega (arith, ap steps_left e), (λ e. omega (arith, ap steps_left e), tt)),
          ),
        ),
      ),
    ),
  ),
)

stop-terminates_example :
    let s = move_all down (
      happen handled (move_all (consumer_moves ∷ []) (happen signalled (happen_all up started)))) in
    (length down ≤ 9) × ((s.main ≡ stopped) ⊎ ((m : Move) × (move m s ≢ s)))
stop-terminates_example = stop-terminates up (consumer_moves ∷ []) down refl down-IsBusy

main_returns :
    (move_all down (
      happen handled
        (move_all (consumer_moves ∷ []) (happen signalled (happen_all up started))))).main
    ≡ stopped
main_returns = refl

stop-missed_example :
    let s = move_all (consumer_moves ∷ relay_moves ∷ consumer_moves ∷ consumer_moves ∷ []) (
      happen handled (
        happen signalled
          (happen_all (moves main_moves ∷ moves main_moves ∷ moves main_moves ∷ []) started))) in
    (steps_done s.main ≤ steps_done joining_consumer)
    × (consumer_done s.consumer ≡ false)
    × (s.g_stop ≡ true)
stop-missed_example =
    stop-missed (moves main_moves ∷ moves main_moves ∷ moves main_moves ∷ [])
      (consumer_moves ∷ relay_moves ∷ consumer_moves ∷ consumer_moves ∷ []) refl

abbrev whole : List Event
whole =
    moves main_moves
    ∷ moves main_moves
    ∷ moves main_moves
    ∷ moves consumer_moves
    ∷ signalled
    ∷ handled
    ∷ moves consumer_moves
    ∷ moves main_moves
    ∷ moves main_moves
    ∷ moves main_moves
    ∷ moves relay_moves
    ∷ moves main_moves
    ∷ []

stopped-done_example :
    relay_done (happen_all whole started).relay ≡ true
    × consumer_done (happen_all whole started).consumer ≡ true
stopped-done_example = stopped-done whole refl
