-- ===== src/Cache.antt =====
-- common/cache
pub mod Lru
