-- ===== src/Apps.antt =====
-- apps/: the parts of the programs that are not only calls of the library and printing.
pub mod Server
pub mod BypassBenchmark
pub mod MultiFeedBenchmark
