-- ===== src/Go.antt =====
-- What the program uses of Go's standard library.
pub mod Strings
pub mod Numbers
pub mod Bits
pub mod Scanner
pub mod Path
pub mod Json
