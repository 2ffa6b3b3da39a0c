-- ===== src/MultiFeed.antt =====
-- include/mdfh/multi_feed_ingestion.hpp, src/multi_feed_ingestion.cpp: many feeds into one buffer.
pub mod Config
pub mod FromYaml
pub mod Origins
pub mod Mpsc
pub mod Monitor
pub mod Worker
pub mod Dispatcher
mod Tests
