-- ===== src/Api.antt =====
-- HTTP: src/http, src/middleware/validate-request.ts, src/lib/logger.ts and src/routes.
pub mod Logs
pub mod Responses
pub mod Validation
pub mod Schemas
pub mod Routes
pub mod BookingRoutes
pub mod AuthRoutes
pub mod AdminRoutes
pub mod ExperienceRoutes
pub mod Health
pub mod Answers
pub mod AdminAnswers
mod Tests
mod AdminTests
