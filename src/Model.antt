-- ===== src/Model.antt =====
-- The enumerations and rows of prisma/schema.prisma that the services read and write. Identifiers
-- (UUIDs) are only compared, so they are natural numbers; a `DateTime` is a number of milliseconds
-- from a fixed instant that precedes every date in use; a `Decimal(12,2)` is a number of cents.
mod Enums
mod Rows
pub use Enums.*
pub use Rows.*
