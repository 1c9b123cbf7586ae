-- ===== src/Obs.antt =====
-- services/inventory/include/inventory/obs.hpp, src/obs.cpp and src/obs_otel.cpp: log
-- lines, hooks and tracing scopes.
pub mod Log
pub mod Lines
pub mod Setup
pub mod Spans
pub mod Holders
pub mod Moves
pub mod Ownership
pub mod Host
pub mod Handled
