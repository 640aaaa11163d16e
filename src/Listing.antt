-- ===== src/Listing.antt =====
-- The paged lists of the administrators: src/services/admin-booking.service.ts and
-- src/services/audit-log.service.ts.
pub mod Pages
pub mod Bookings
pub mod AuditLogs
mod Tests
