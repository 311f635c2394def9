-- ===== src/Search.antt =====
-- The search, platform/backend/app/search.
pub mod Application
pub mod Discovery
pub mod Tiers
