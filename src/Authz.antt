-- ===== src/Authz.antt =====
-- Package fx/stdcrpcauthfx: authentication by a bearer token, and authorization of each remote
-- procedure by a scope.
pub mod Strings
pub mod Scope
pub mod Access
pub mod Tenant
pub mod Sample
mod Tests
