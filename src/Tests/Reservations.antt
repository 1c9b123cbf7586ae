-- ===== src/Tests/Reservations.antt =====
-- Runs of `reserve` and `release`, and their theorems at concrete calls.
use choreography_saga_demo.Base.{
  String, text_dec, text_ne, ◌≡◌, ◌≢◌, refl, inr, true, false, List, [], ◌∷◌, some, arith,
}
use choreography_saga_demo.Base.Int.{pos, ◌+ℤ◌, ◌-ℤ◌}
use choreography_saga_demo.Base.Outcome.{ok, throws, invalid_uuid}
use choreography_saga_demo.Domain.{ReservationState}
use choreography_saga_demo.Database.Tables.{State, Reservation}
use choreography_saga_demo.Database.{reserve, release, reserved_outcome, failed_outcome}
use choreography_saga_demo.Database.Conservation.{units}
use choreography_saga_demo.Database.Ledger.{IsValid, IsBalanced}
use choreography_saga_demo.Database.Validity.{RepeatsOrNew}
use choreography_saga_demo.Database.ReserveSteps.{ReserveStep, reserve_steps}
use choreography_saga_demo.Database.ReleaseSteps.{ReleaseStep, release_steps}
use choreography_saga_demo.Database.View.{view}
use choreography_saga_demo.Database.Orders.{shop_run, those_returned, run-view}
use choreography_saga_demo.Database.History.{Call, reserves, releases, run, run-units, run-IsValid}
use choreography_saga_demo.Database.Retry.{reserve_retry}
use choreography_saga_demo.Database.Undo.{release-reserve}
use choreography_saga_demo.Database.Leak.{reserve_again_leaks}
use choreography_saga_demo.Database.Sticks.{reserve_after_release_sticks}
use choreography_saga_demo.Database.Sql.{set_stock, take_units}
use choreography_saga_demo.Tests.Fixtures.{server, server-laws, seed, event, builder}

-- Two units reserved, and the call repeated.
abbrev booked : State
booked = (reserve server "saga-1" "key-1" "SKU-1" (pos 2) (builder "inventory.reserved") seed).1

booked_stock :
    booked.stock
    ≡ record { sku = "SKU-1"; available = pos 98; reserved = pos 2 }
      ∷ record { sku = "SKU-DEADBEEF"; available = pos 0; reserved = pos 0 }
      ∷ []
unfolding reserve text_dec ◌+ℤ◌ ◌-ℤ◌
booked_stock = refl

poison_refused :
    (reserve server "saga-2" "key-2" "SKU-DEADBEEF" (pos 1) (builder "t") seed).0
    ≡ ok (failed_outcome false)
unfolding reserve text_dec ◌+ℤ◌ ◌-ℤ◌
poison_refused = refl

-- An empty saga id is no UUID.
empty_saga_throws :
    reserve server "" "key-2" "SKU-1" (pos 1) (builder "t") seed ≡ (throws invalid_uuid, seed)
unfolding reserve text_dec ◌+ℤ◌ ◌-ℤ◌
empty_saga_throws = refl

-- The theorems at concrete calls.
reserve_steps_example :
    let (r, d') = reserve server "saga-1" "key-1" "SKU-1" (pos 2) (builder "t") seed in
    ReserveStep server "saga-1" "key-1" "SKU-1" (pos 2) (builder "t") seed r d'
reserve_steps_example = reserve_steps server "saga-1" "key-1" "SKU-1" (pos 2) (builder "t") seed

release_steps_example :
    let (r, d') = release server "saga-1" "" "key-2" "inventory-release" (builder "t") booked in
    ReleaseStep server "saga-1" "" "key-2" "inventory-release" (builder "t") booked r d'
release_steps_example =
    release_steps server "saga-1" "" "key-2" "inventory-release" (builder "t") booked

-- A saga's key is its id here.
abbrev calls : List Call
calls =
    reserves "saga-1" "saga-1" "SKU-1" (pos 2) (builder "t")
    ∷ reserves "saga-2" "saga-2" "SKU-1" (pos 3) (builder "t")
    ∷ releases "saga-1" "" "key" "inventory-release" (builder "t")
    ∷ reserves "saga-1" "saga-1" "SKU-1" (pos 2) (builder "t")
    ∷ []

run-units_example : units (run server seed calls).stock ≡ units seed.stock
run-units_example = run-units server seed calls

pub own_key : (s u : String) → server.uuid_cast s ≡ some u → s ≡ u
own_key s u h = ground arith

pub seed-IsValid : IsValid seed
unfolding text_dec
seed-IsValid = record {
  unique_skus = (refl, (refl, tt));
  unique_sagas = tt;
  shelf = omega arith;
  amounts = tt;
  balanced = (refl, (refl, tt));
}

run-IsValid_example : IsValid (run server seed calls)
run-IsValid_example =
    run-IsValid server (λ s. s) seed calls
      (
        (omega arith, own_key "saga-1"),
        ((omega arith, own_key "saga-2"), (tt, ((omega arith, own_key "saga-1"), tt))),
      )
      (seed-IsValid, tt)

run-view_example :
    view (run server seed calls) ≡ shop_run server (view seed) (those_returned server seed calls)
run-view_example =
    run-view server (λ s. s) seed calls
      (
        (omega arith, own_key "saga-1"),
        ((omega arith, own_key "saga-2"), (tt, ((omega arith, own_key "saga-1"), tt))),
      )
      (seed-IsValid, tt)

new_saga : RepeatsOrNew server "saga-1" "key-1" seed
new_saga = inr (λ u e. refl)

reserve_retry_example :
    reserve server "saga-1" "key-1" "SKU-1" (pos 7) (builder "t") booked
    ≡ (ok (reserved_outcome true "u"), booked)
unfolding reserve text_dec ◌+ℤ◌ ◌-ℤ◌
reserve_retry_example =
    reserve_retry server server-laws "saga-1" "key-1" "SKU-1" "saga-1" (pos 2)
      (builder "inventory.reserved") seed refl new_saga "SKU-1" (pos 7) (builder "t")
      (reserved_outcome false "u") booked refl

abbrev freed : State
freed = (release server "saga-1" "" "key-2" "inventory-release" (builder "t") booked).1

release-reserve_example : freed.stock ≡ seed.stock
unfolding release reserve text_dec ◌+ℤ◌ ◌-ℤ◌
release-reserve_example =
    (release-reserve server "saga-1" "" "key-2" "inventory-release" "saga-1" (builder "t")
      (event "t") "{}" refl refl refl "key-1" "SKU-1" (pos 2) (builder "inventory.reserved") seed
      (reserved_outcome false "u") booked refl refl
      (text_ne "inventory-release" "inventory-reserve" refl) (omega arith) refl refl refl).1

-- The saga reserves again under a second key.
abbrev leaked : State
leaked = (reserve server "saga-1" "key-3" "SKU-1" (pos 1) (builder "t") booked).1

booked_reservation : Reservation
booked_reservation = record {
  id = "u";
  saga_id = "saga-1";
  sku = "SKU-1";
  quantity = pos 2;
  status = ReservationState.reserved;
}

reserve_again_leaks_example :
    (leaked.reservations ≡ booked.reservations) × (¬ IsBalanced leaked.reservations leaked.stock)
unfolding reserve text_dec ◌+ℤ◌ ◌-ℤ◌ booked_reservation
reserve_again_leaks_example =
    reserve_again_leaks server "saga-1" "key-3" "SKU-1" (pos 1) (builder "t") booked "saga-1"
      booked_reservation (record { sku = "SKU-1"; available = pos 98; reserved = pos 2 })
      (reserved_outcome false "u") leaked refl refl refl refl (omega arith) (refl, (refl, tt)) refl
      refl

-- The saga whose reservation was released reserves again; another saga reserves, and it is released.
abbrev again : State
again = (reserve server "saga-1" "key-3" "SKU-1" (pos 1) (builder "t") freed).1

abbrev between : List Call
between = reserves "saga-2" "key-5" "SKU-1" (pos 4) (builder "t") ∷ []

reserve_after_release_sticks_example :
    let e : State = run server again between in
    (again.stock ≡ set_stock (take_units (pos 1)) "SKU-1" freed.stock)
    × (again.stock ≢ freed.stock)
    × ((release server "saga-1" "" "key-4" "inventory-order-cancelled" (builder "t") e).1.stock
        ≡ e.stock)
unfolding release reserve text_dec ◌+ℤ◌ ◌-ℤ◌ booked_reservation
reserve_after_release_sticks_example =
    reserve_after_release_sticks server "saga-1" "key-3" "SKU-1" "saga-1" (pos 1) (builder "t")
      freed (record booked_reservation { status = ReservationState.released })
      (record { sku = "SKU-1"; available = pos 100; reserved = pos 0 }) (reserved_outcome false "u")
      again refl refl refl refl refl (omega arith) refl refl between "" "key-4"
      "inventory-order-cancelled" (builder "t")
