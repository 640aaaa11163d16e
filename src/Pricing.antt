-- ===== src/Pricing.antt =====
-- src/services/pricing.service.ts and the config schemas of
-- src/schemas/responses/pricing.responses.ts.
pub mod Numbers
pub mod Configs
pub mod Preview
pub mod Rules
pub mod Bounds
mod Tests
