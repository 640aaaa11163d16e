-- ===== src/Auth.antt =====
-- src/services/auth.service.ts, src/auth and the two middlewares that guard the routes.
pub mod Tokens
pub mod Sessions
pub mod Guards
pub mod Rotation
pub mod Access
pub mod Twice
pub mod Logout
pub mod Reuse
mod Tests
