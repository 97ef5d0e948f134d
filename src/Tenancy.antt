-- ===== src/Tenancy.antt =====
-- Package fx/stdcrpcenttenancyfx: a database role for each remote procedure, stamped on the context
-- at the wire boundary and made the role of every transaction when it begins.
pub mod Roles
pub mod Quote
pub mod Gate
pub mod Hook
pub mod Interceptor
mod Tests
