-- ===== src/Stdtx.antt =====
-- Package stdtx: transactions run through a driver, with retries on serialization failures.
pub mod Scope
pub mod Driver
pub mod Transact
pub mod Sample
