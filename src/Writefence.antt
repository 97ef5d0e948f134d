-- ===== src/Writefence.antt =====
-- Package stdcrpc/stdcrpcwritefence: a signed cookie that sends the reads after a write to the
-- read-write transactor.
pub mod Intent
pub mod Middleware
mod Tests
