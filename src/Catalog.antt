-- ===== src/Catalog.antt =====
-- The catalog of items: the models of platform/backend/app/models and discovery/common, the
-- reliability engine, the normalization of candidates, the ranking and the query planner.
pub mod Models
pub mod Identity
pub mod Reliability
pub mod Deduplication
pub mod Normalization
pub mod Admission
pub mod Phase10
pub mod Ranking
pub mod Planner
