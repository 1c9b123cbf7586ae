-- ===== src/Lib.antt =====
-- The inventory service of the choreography saga demo, services/inventory, which is the
-- repository's C++ program: it reserves stock for an order's saga, releases it when the order is
-- cancelled, and announces both by a transactional outbox. The Order service (Go) and the Payment
-- service (Python) are not modelled.
--
-- Parts, and the files that model them:
-- - Domain: services/inventory/include/inventory/domain.hpp, statuses and the poison SKU.
-- - Outbox, Repository: services/inventory/include/inventory/outbox.hpp and repository.hpp beside
--   it, the data and the abstract classes Repo, Publisher and Repository. Each class is a record of
--   operations over a state type.
-- - Relay: services/inventory/src/outbox.cpp, Relay::drain_once over any Repo and Publisher, and
--   the relay thread of services/inventory/src/main.cpp. Relay/Send, Rows and Pass say what a pass
--   over Database comes to; Relay/Batch which rows it takes; Relay/Progress, Queue and Once are
--   about many passes, Relay/Lag about lag samples. Relay/Threads has the relay's thread as a
--   program counter and atomic steps between those of the other threads; Relay/Schedule relates a
--   pass to those steps of the relay's own thread, Relay/Covered and Safety are about all
--   interleavings, Relay/Fresh, Kept and Own about one row and its message in those over the Kafka
--   producer.
-- - Database: services/inventory/src/db.cpp over the tables of
--   services/inventory/migrations/0001_init.up.sql. Database/Tables has the tables and the
--   parameters for PostgreSQL, Database/Sql and OutboxSql the statements. ReserveSteps and
--   ReleaseSteps say what a call did, by its branch; Markers what a release does to the markers.
--   Conservation, Ledger, Validity and History are about invariants of histories of calls; Retry,
--   Undo and Leak about two calls in a row, Sticks about a release after any calls. Shop is an
--   abstract specification, without tables; View sees the tables as such a shop, Refines and Orders
--   relate the calls and their histories to it. Connection is Database::Impl, and what a lost
--   connection does to a call; Requests, Marks and Once below it are about calls that are made
--   again after one.
-- - Json, Uuid, Envelope: services/inventory/include/inventory/envelope.hpp and
--   services/inventory/src/envelope.cpp. Json is the interface of the JSON library; Uuid is
--   uuid_v4.
-- - Clock: rfc3339_now of services/inventory/src/envelope.cpp and timestamp of
--   services/inventory/src/obs.cpp, with gmtime_r and strftime as loops over years and months.
--   Clock/Calendar has the calendar by formulas, Clock/RoundTrip a reader of the text, that takes
--   only the one form and the days and times that there are.
-- - App: services/inventory/include/inventory/service.hpp and services/inventory/src/service.cpp,
--   InventoryApp over any Repository and JSON library. App/Events, App/Releases and App/Service are
--   about its calls over Database. App/Logs has its methods with their log lines, and the class as
--   a record of them.
-- - Kafka: services/inventory/include/inventory/kafka_io.hpp and
--   services/inventory/src/kafka_io.cpp, the loop Consumer::run over the polls made before it sees
--   that it was stopped. Kafka/Producer is Producer::publish over librdkafka, Kafka/Client the
--   constructors and destructors; Kafka/Delivery has what publish relies on of librdkafka.
--   Kafka/Logs has the loop with its log lines. Kafka/Commits and Kafka/Position are about what a
--   run commits.
-- - Process: the consumer's callback in services/inventory/src/main.cpp. Process/Cancel and
--   Process/Redelivery are about it over Database. Process/Callback is the callback with its span
--   and its log line, Process/Threads has it as the handler of Consumer::run, and Process/Rounds
--   the body of the relay's thread with its log lines. Process/Startup is what main constructs, in
--   its order, Process/Main the same with setup and log lines, and the end of main.
--   Process/Lifecycle is main from the start of the relay's thread to its return, with the two
--   loops and the two halves of the signal handler as steps; Wiring, Rank, Advance, Stop and Missed
--   below it are about all orders of those steps.
-- - Obs: services/inventory/include/inventory/obs.hpp, services/inventory/src/obs.cpp and
--   services/inventory/src/obs_otel.cpp. Obs/Log has log lines, hooks and trace propagation,
--   Obs/Lines what a line says; Obs/Setup has setup and shutdown over the factories of
--   OpenTelemetry; Obs/Spans has the SpanScope variables over a heap, Obs/Holders, Moves and
--   Ownership who holds a span; Obs/Host joins a repository, the telemetry and the spans, and
--   Obs/Handled says what a handler over them comes to.
-- - Grpc: services/inventory/src/grpc_server.cpp with the messages of
--   proto/inventory/v1/inventory.proto. Grpc/Retry is about a request sent twice, Grpc/Handlers has
--   the handlers with their telemetry, Grpc/Served what they come to.
-- - Config: services/inventory/include/inventory/config.hpp and services/inventory/src/config.cpp.
--   Config/Numbers is about its numbers.
-- - Saga: these together, in one saga that reserves, is announced, is cancelled and is announced
--   again. Saga/Rest has the database between two such calls, Saga/Steps the two calls,
--   Saga/Compensation their composition with the relay.
-- - System: services/inventory/src/main.cpp, the classes put together over Database, and what
--   happens to them one after another: requests, messages, rounds of the relay. System/ByCalls and
--   System/Calls see this as a history of calls of the database.
-- - Base: what the others share (text, lists, 32-bit ranges over integers, outcomes, transactions).
-- - Tests: a database server, a JSON library and a broker as concrete functions, and the theorems
--   at concrete inputs.
--
-- How code becomes definitions. A method that changes state is a function from a state to an
-- outcome, a value or the exception thrown, and the new state (Base/Outcome.Proc). A method of
-- Database is one transaction: when it throws, the state is the one before it (run_tx). The mutex
-- of Database makes its calls follow one another, so a history is a sequence of calls
-- (Database/History.Call). A table is the list of its rows. The network is an argument too: it may
-- take the connection before or after the server commits (Database/Connection.Fault). Elsewhere
-- every statement reaches the server. An INT column refuses what does not fit 32 bits. What
-- PostgreSQL itself computes is a parameter: the casts of a text to UUID and JSONB, and
-- gen_random_uuid(); PostgresLaws has what is documented of them. So is which rows other sessions
-- hold locked (SKIP LOCKED). ORDER BY created_at keeps rows of one time in the order of their
-- insertion. now() does not change during a pass of the relay. The JSON library is a parameter with
-- the laws of Json.JsonLaws, and the random words and the formatted time of make_envelope are
-- arguments. The methods of App, the handlers of Grpc and the callback of Process are modelled
-- twice: by their effect on the repository, which most theorems are about, and with their span, log
-- line and metric (App/Logs, Grpc/Handlers, Process/Callback), as one step for each span variable.
-- So are the loops of the relay's and the consumer's thread (Process/Rounds, Kafka/Logs), where the
-- JSON library may throw for the object of a line, as it does for a text that is not UTF-8. So is
-- what main constructs (Process/Main). A lag is a whole number of seconds. Of librdkafka,
-- RdKafkaLaws has what Producer::publish relies on: that an empty queue means delivery, which fails
-- where a delivery fails.
--
-- Loops are structural recursion: over the batch in drain_once, over the sixteen bytes in uuid_v4,
-- and over the texts that stoi reads. Kafka.run and Relay.relay_rounds stand for loops that end
-- when the service is stopped: the polls, or the rounds, made before that are an argument, and no
-- fuel runs out. Clock.gmtime looks for the year on fuel, one more than the days divided by 365,
-- which no date uses up; Clock.decimal writes at most twenty digits, as many as 64 bits need. In
-- Process/Lifecycle a round of the relay's or the consumer's loop is one step, which ends, and main
-- goes on from a join only when the thread has ended.
--
-- Not modelled: OpenTelemetry itself, and which span is the current one; the gRPC server's own
-- threads; the tests and their fakes.
pub mod App
pub mod Base
pub mod Clock
pub mod Config
pub mod Database
pub mod Domain
pub mod Envelope
pub mod Grpc
pub mod Json
pub mod Kafka
pub mod Obs
pub mod Outbox
pub mod Process
pub mod Relay
pub mod Repository
pub mod Saga
pub mod System
pub mod Tests
pub mod Uuid
