-- ===== src/Tests/Connection.antt =====
-- A reservation whose COMMIT is not answered, and that is made again after a restart.
use choreography_saga_demo.Base.{text_dec, ◌≡◌, refl, true, List, [], ◌∷◌, arith, All}
use choreography_saga_demo.Base.Int.{pos, ◌+ℤ◌, ◌-ℤ◌}
use choreography_saga_demo.Base.Outcome.{ok}
use choreography_saga_demo.Database.{reserve}
use choreography_saga_demo.Database.History.{Call, reserves, run}
use choreography_saga_demo.Database.Connection.{
  Impl, Event, served, lost_before, lost_after, asks, restarts, connect, happen, run_events,
  answered,
}
use choreography_saga_demo.Database.Connection.Requests.{AllDiffer, Among, requests}
use choreography_saga_demo.Database.Connection.Once.{fault_free, run_events-once}
use choreography_saga_demo.Tests.Fixtures.{server, seed, builder}

abbrev booking : Call
booking = reserves "saga-1" "key-1" "SKU-1" (pos 2) (builder "inventory.reserved")

abbrev opened : Impl
opened = record { tables = seed; is_open = true }

-- The second call finds the connection gone; the last one is answered as a duplicate.
abbrev faults : List Event
faults =
    asks lost_before booking
    ∷ restarts true
    ∷ asks lost_after booking
    ∷ asks served booking
    ∷ restarts true
    ∷ asks served booking
    ∷ []

booked_once :
    (run_events server opened faults).tables.stock
    ≡ (reserve server "saga-1" "key-1" "SKU-1" (pos 2) (builder "inventory.reserved") seed).1.stock
unfolding run_events happen connect reserve text_dec ◌+ℤ◌ ◌-ℤ◌
booked_once = ground arith

connect_opens : connect true seed ≡ ok opened
unfolding connect
connect_opens = refl

run_events-once_example :
    let cs : List Call = fault_free server opened faults in
    ((run_events server opened faults).tables ≡ run server seed cs)
    × AllDiffer cs
    × All (Among (requests cs)) (requests (answered server opened faults))
run_events-once_example = run_events-once server opened faults
