-- ===== src/Cache.antt =====
-- internal/cache: the entries and the configuration, the cache in memory, the cache with a
-- fallback behind another one, and the wrapper with the older interface.
pub mod Entry
pub mod Memory
pub mod Fallback
pub mod Legacy
pub mod Redis
pub mod Factory
