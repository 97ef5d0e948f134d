-- ===== src/Authn.antt =====
-- fx/stdauthnfx: authentication by API keys of our own and by access tokens of a provider.
pub mod Library
pub mod Access
pub mod Authenticate
pub mod Interceptors
pub mod Startup
pub mod ApiKeys
pub mod Reaching
mod Tests
