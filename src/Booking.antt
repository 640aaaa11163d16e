-- ===== src/Booking.antt =====
-- src/services/booking.service.ts and src/services/booking-state.ts.
pub mod State
pub mod Slots
pub mod Views
pub mod Reserve
pub mod Confirm
pub mod Cancel
pub mod Expire
pub mod Seats
pub mod Adjusting
pub mod Outcomes
pub mod Expiring
pub mod Progress
pub mod Stale
pub mod Draining
pub mod Worker
pub mod Races
pub mod Tracking
pub mod Keeping
pub mod Interleaving
pub mod Lifecycle
pub mod Refining
pub mod Tenants
pub mod Checks
pub mod Accounting
pub mod Handlers
pub mod Atomic
pub mod Effects
pub mod Updates
pub mod Lost
pub mod Versions
pub mod Accepts
mod Samples
mod Tests
mod VersionTests
mod WorkerTests
mod RaceTests
mod TenantTests
mod EffectTests
