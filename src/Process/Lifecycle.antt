-- ===== src/Process/Lifecycle.antt =====
-- services/inventory/src/main.cpp: main from the line that starts the relay's thread, the two loops,
-- handle_signal, and running_ of kafka::Consumer. What a round of a loop does is the subject of Relay
-- and Kafka: here it is one step, that returns.
pub mod Wiring
pub mod Rank
pub mod Advance
pub mod Stop
pub mod Missed
use choreography_saga_demo.Base.{ℕ, suc, zero, Bool, true, false, List, [], ◌∷◌, if◌then◌else◌}

-- What main does next.
pub data MainPc : Type 0 where
  starting_relay registering starting_consumer joining_consumer shutting_down setting_stop
        joining_relay stopped :
      MainPc

-- What the thread of the relay's loop does next, and that of `run`; absent before it is made.
pub data RelayPc : Type 0 where
  relay_absent relay_tests relay_drains relay_sleeps relay_ended : RelayPc

pub data ConsumerPc : Type 0 where
  consumer_absent consumer_enters consumer_tests consumer_consumes consumer_ended : ConsumerPc

-- `handlers` counts the calls of handle_signal that have set g_stop and not done the rest yet;
-- `serving` is the state of the gRPC server.
pub record Service : Type 0 where
  pub main : MainPc
  pub relay : RelayPc
  pub consumer : ConsumerPc
  pub g_stop : Bool
  pub g_consumer : Bool
  pub running : Bool
  pub serving : Bool
  pub handlers : ℕ

abbrev pub relay_done : RelayPc → Bool
relay_done relay_ended = true
relay_done relay_absent = false
relay_done relay_tests = false
relay_done relay_drains = false
relay_done relay_sleeps = false

abbrev pub consumer_done : ConsumerPc → Bool
consumer_done consumer_ended = true
consumer_done consumer_absent = false
consumer_done consumer_enters = false
consumer_done consumer_tests = false
consumer_done consumer_consumes = false

-- The next step of main, where it stands at the first argument.
abbrev pub main_step : MainPc → Service → Service
main_step starting_relay s = record s { main = registering; relay = relay_tests }
main_step registering s = record s { main = starting_consumer; g_consumer = true }
main_step starting_consumer s = record s { main = joining_consumer; consumer = consumer_enters }
main_step joining_consumer s =
    if consumer_done s.consumer then record s { main = shutting_down } else s
main_step shutting_down s = record s { main = setting_stop; serving = false }
main_step setting_stop s = record s { main = joining_relay; g_stop = true }
main_step joining_relay s = if relay_done s.relay then record s { main = stopped } else s
main_step stopped s = s

-- `while (!g_stop.load()) { try { relay.drain_once(); } catch ... sleep_for(...) }`.
abbrev pub relay_step : RelayPc → Service → Service
relay_step relay_absent s = s
relay_step relay_tests s = record s { relay = if s.g_stop then relay_ended else relay_drains }
relay_step relay_drains s = record s { relay = relay_sleeps }
relay_step relay_sleeps s = record s { relay = relay_tests }
relay_step relay_ended s = s

-- `running_ = true; while (running_) { ... }`.
abbrev pub consumer_step : ConsumerPc → Service → Service
consumer_step consumer_absent s = s
consumer_step consumer_enters s = record s { consumer = consumer_tests; running = true }
consumer_step consumer_tests s = record s {
  consumer = if s.running then consumer_consumes else consumer_ended;
}
consumer_step consumer_consumes s = record s { consumer = consumer_tests }
consumer_step consumer_ended s = s

pub data Move : Type 0 where
  main_moves relay_moves consumer_moves : Move

abbrev pub move : Move → Service → Service
move main_moves s = main_step s.main s
move relay_moves s = relay_step s.relay s
move consumer_moves s = consumer_step s.consumer s

-- The two halves of handle_signal; Consumer::stop is the second.
abbrev pub signal : Service → Service
signal s = record s { g_stop = true; handlers = suc s.handlers }

abbrev pub stop : ℕ → Service → Service
stop zero s = s
stop (suc n) s = record s { handlers = n; running = if s.g_consumer then false else s.running }

pub data Event : Type 0 where
  moves : Move → Event
  signalled handled : Event

abbrev pub happen : Event → Service → Service
happen (moves m) s = move m s
happen signalled s = signal s
happen handled s = stop s.handlers s

abbrev pub happen_all : List Event → Service → Service
happen_all [] s = s
happen_all (e ∷ es) s = happen_all es (happen e s)

abbrev pub move_all : List Move → Service → Service
move_all [] s = s
move_all (m ∷ ms) s = move_all ms (move m s)

-- The service when the handlers have been installed.
abbrev pub started : Service
started = record {
  main = starting_relay;
  relay = relay_absent;
  consumer = consumer_absent;
  g_stop = false;
  g_consumer = false;
  running = false;
  serving = true;
  handlers = 0;
}
