-- ===== src/Cache.antt =====
-- src/lib/availability-cache.ts, over the parts of Redis that src/lib/redis-cache.ts connects to.
pub mod Store
pub mod Invalidation
mod Tests
