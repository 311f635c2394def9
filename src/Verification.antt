-- ===== src/Verification.antt =====
-- The verification subsystem, platform/backend/app/verification: its records, the scoring engine,
-- the pipeline's verdict on one attempt, and the worker queue.
pub mod Models
pub mod Scoring
pub mod Checks
pub mod Pipeline
pub mod Registry
pub mod Ingestion
pub mod Prefilter
pub mod Queue
pub mod ColdMiss
pub mod Install
pub mod Timeouts
pub mod Judge
pub mod Auth
pub mod Exercise
pub mod Invocation
pub mod Local
pub mod Credentials
pub mod Remote
pub mod Verify
pub mod UserTest
pub mod BadgeLookup
