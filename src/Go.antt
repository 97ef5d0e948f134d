-- ===== src/Go.antt =====
-- What the source uses of Go's language and standard library.
pub mod Errors
pub mod Context
pub mod Outcome
pub mod Format
pub mod Strings
pub mod Results
