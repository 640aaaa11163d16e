-- ===== src/Webhooks.antt =====
-- The webhooks: src/lib/webhook-signature.ts and the three webhook services of src/services.
pub mod Delivery
pub mod Registration
pub mod Dispatch
pub mod Laws
pub mod Sending
mod Tests
