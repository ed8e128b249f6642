-- ===== src/Bench.antt =====
-- scripts/*bench*: the gates on the benchmark summaries and the wrapper that re-measures once.
pub mod Json
pub mod Shim
mod Tests
pub mod Daemon
pub mod Wrapper
