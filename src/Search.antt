-- ===== src/Search.antt =====
-- src/services/experience.service.ts: the search of experiences, and the detail of one.
pub mod Query
pub mod Prices
pub mod Rows
pub mod Experiences
pub mod Detail
pub mod Quotes
pub mod Ids
pub mod Lowest
pub mod Starts
pub mod Sound
pub mod Fresh
mod Tests
