-- ===== src/Saga.antt =====
-- A saga through the whole service: services/inventory/src/grpc_server.cpp, service.cpp, db.cpp,
-- outbox.cpp, kafka_io.cpp and main.cpp together.
pub mod Rest
pub mod Steps
pub mod Compensation
