-- ===== src/Temporal.antt =====
-- The context propagators of fx/stdcrpcauthfx/stdcrpcauthtemporalfx and of
-- fx/stdcrpcenttenancyfx/stdcrpcenttenancytemporalfx, which carry the claims and the database role of
-- a request to the activities of its workflows.
pub mod Header
pub mod Claims
pub mod Role
pub mod Journey
pub mod Codec
pub mod Interceptors
pub mod Workers
pub mod Client
mod Tests
