-- ===== src/Ingestion.antt =====
-- include/mdfh/ingestion.hpp and src/ingestion.cpp: from the bytes that a socket delivers to slots in
-- the ring buffer, with the statistics kept on the way.
pub mod Stats
pub mod Parser
pub mod Client
pub mod Benchmark
