-- ===== src/Vm.antt =====
-- The host side of the runner.
pub mod Config
pub mod LinePrinter
pub mod Archive
pub mod Extract
pub mod Image
pub mod State
pub mod OciSpec
pub mod Run
pub mod Lock
pub mod Main
pub mod Container
pub mod RecvFd
