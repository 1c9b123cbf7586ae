-- ===== src/Database/Connection.antt =====
-- services/inventory/src/db.cpp: struct Database::Impl, the connection on which a Database makes its
-- calls, and the constructor that opens it. The server and the network are not part of the source:
-- what they do to a call is an argument.
pub mod Requests
pub mod Marks
pub mod Once
use choreography_saga_demo.Base.{ℕ, ◌+◌, Bool, true, false, List, [], ◌∷◌, ◌++◌, if◌then◌else◌}
use choreography_saga_demo.Base.Outcome.{
  Outcome, ok, throws, runtime_error, Proc, ◌>>=◌, ◌>>◌, pure, modify,
}
use choreography_saga_demo.Database.Tables.{Postgres, State}
use choreography_saga_demo.Database.Refines.{succeeded}
use choreography_saga_demo.Database.History.{
  Call, reserves, releases, publishes, attempts, waits, step,
}
use choreography_saga_demo.Database.{reserve, release, mark_published, mark_failed}

-- The tables, which the server keeps, and whether `conn` still stands.
pub record Impl : Type 0 where
  pub tables : State
  pub is_open : Bool

-- What the network does to a transaction: nothing; it takes the connection before the server has
-- committed, so that the server rolls back; or it takes it when the server has committed, and the answer
-- to COMMIT is lost.
pub data Fault : Type 0 where
  served lost_before lost_after : Fault

-- Database::Database: pqxx connects to a server that can be reached, and throws otherwise.
unfoldable pub connect : Bool → State → Outcome Impl
connect true d = ok (record { tables = d; is_open = true })
connect false d = throws (runtime_error "broken_connection")

-- A method of Database. pqxx throws in every case but the one in which the call is served, and does
-- not connect again.
unfoldable pub over : {A : Type 0} → Fault → Proc State A → Proc Impl A
over f m s = elim s.is_open [
  | false ↦ (throws (runtime_error "broken_connection"), s)
  | true ↦ elim f [
    | served ↦ let (r, d) = m s.tables in (r, record { tables = d; is_open = true })
    | lost_before ↦
        (throws (runtime_error "broken_connection"), record { tables = s.tables; is_open = false })
    | lost_after ↦
        let (r, d) = m s.tables in
        (throws (runtime_error "in_doubt_error"), record { tables = d; is_open = false })
  ]
]

-- A call as one transaction whose answer is dropped.
transaction : Postgres → Call → Proc State (Unit {0})
transaction pg (reserves saga key sku q build) = reserve pg saga key sku q build >> pure tt
transaction pg (releases saga id key consumer build) =
    release pg saga id key consumer build >> pure tt
transaction pg (publishes id) = mark_published pg id
transaction pg (attempts id) = mark_failed pg id
transaction pg (waits n) = modify λ d. record d { now = d.now + n }

-- A call that writes; the loss of the connection in a call that reads, or between calls; a restart of
-- the process, with the server in reach or not; the passing of time.
pub data Event : Type 0 where
  asks : Fault → Call → Event
  loses : Event
  restarts : Bool → Event
  passes : ℕ → Event

unfoldable pub happen : Postgres → Impl → Event → Outcome (Unit {0}) × Impl
unfolding transaction over connect
happen pg s (asks f c) = over f (transaction pg c) s
happen pg s loses = (ok tt, record s { is_open = false })
happen pg s (restarts reachable) = elim (connect reachable s.tables) [
  | ok s' ↦ (ok tt, s')
  | throws e ↦ (throws e, record s { is_open = false })
]
happen pg s (passes n) =
    (ok tt, record { tables = step pg s.tables (waits n); is_open = s.is_open })

unfoldable pub run_events : Postgres → Impl → List Event → Impl
unfolding happen
run_events pg s [] = s
run_events pg s (e ∷ es) = run_events pg (happen pg s e).1 es

-- The calls of a history that reach the end of their transaction on the server, and the time that
-- passes; and those calls among them of which the caller sees the return.
reached : Impl → Event → List Call
reached s (asks f c) =
    if s.is_open then elim f [ lost_before ↦ [] | served ↦ c ∷ [] | lost_after ↦ c ∷ [] ] else []
reached s (passes n) = waits n ∷ []
reached s _ = []

unfoldable pub committed : Postgres → Impl → List Event → List Call
unfolding reached happen
committed pg s [] = []
committed pg s (e ∷ es) = reached s e ++ committed pg (happen pg s e).1 es

calls_of : Event → List Call
calls_of (asks f c) = c ∷ []
calls_of _ = []

unfoldable pub answered : Postgres → Impl → List Event → List Call
unfolding calls_of happen
answered pg s [] = []
answered pg s (e ∷ es) =
    let rest : List Call = answered pg (happen pg s e).1 es in
    if succeeded (happen pg s e).0 then calls_of e ++ rest else rest
