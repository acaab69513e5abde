-- ===== src/Agent.antt =====
-- The guest side of the runner.
pub mod Cmdline
pub mod Mounts
pub mod Container
pub mod Streams
pub mod Benchmark
pub mod Network
pub mod Debug
pub mod Main
