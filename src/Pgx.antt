-- ===== src/Pgx.antt =====
-- Packages stdtx/stdtxpgxv5, the driver of stdtx for the pgx library, and
-- fx/stdpgxtxfx, which wires it.
pub mod Library
pub mod Wtx
pub mod Driver
pub mod Wiring
pub mod Responses
mod Tests
