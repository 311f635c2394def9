-- ===== src/Artifacts.antt =====
-- Cached artifacts, platform/backend/app/artifacts.
pub mod DiskCache
