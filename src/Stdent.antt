-- ===== src/Stdent.antt =====
-- Package stdent: transactions of ent clients, their retries, the routing of reads, and the ent
-- driver that sets a transaction up; and fx/stdenttxfx, which wires them.
pub mod Scope
pub mod Transactor
pub mod Transact
pub mod Promotion
pub mod Driver
pub mod Sample
pub mod TypeId
pub mod Budget
pub mod Wiring
mod Tests
