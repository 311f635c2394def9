-- ===== src/Tests.antt =====
-- Runs of the model on concrete inputs, and the theorems at inputs that meet their hypotheses.
mod Scoring
mod Samples
mod Pipeline
mod Registry
mod Queue
mod Cipher
mod Session
mod Search
mod ColdMiss
mod Discovery
mod Install
mod Verify
mod Prefilter
mod DiskCache
mod Tiers
mod UserTest
mod BadgeLookup
mod Catalog
mod Oauth
