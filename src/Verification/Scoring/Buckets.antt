-- ===== src/Verification/Scoring/Buckets.antt =====
-- The status that the scoring engine gives.
use discovery_application.Base.{ℕ, ◌+◌, ◌≤◌, ◌<◌, ◌≡◌, ◌≢◌, ◌↔◌, ◌⊎◌, true, false, arith}
use discovery_application.Verification.Models.{low, medium, high, ServerStatus}
use discovery_application.Verification.Scoring.{
  SoftCheckResults, confidence_from_attempts, score_server,
}

-- A server is `verified` exactly when its handshake completed, its score is 80 or more at high
-- confidence, and it was not blocked by missing credentials before any invocation.
pub score_server-verified_iff :
    (r : SoftCheckResults) (completed planned : ℕ)
    → ((score_server r completed planned).status ≡ ServerStatus.verified) ↔ (
        (r.hard_fail ≡ false)
        × (80 ≤ (score_server r completed planned).quality_score)
        × ((score_server r completed planned).confidence ≡ high)
        × ((r.auth_blocked ≡ false) ⊎ (r.invocation_attempted ≡ true)))
unfolding score_server
score_server-verified_iff r completed planned = ground arith

-- A server that is not blocked and did not fail hard is put back into the retry queue exactly
-- when it scores under 40 without high confidence, or 80 or more at medium confidence.
pub score_server-retry_iff :
    (r : SoftCheckResults) (completed planned : ℕ)
    → r.hard_fail ≡ false
    → r.auth_blocked ≡ false
    → ((score_server r completed planned).status ≡ ServerStatus.retry_pending) ↔ (
        ((score_server r completed planned).quality_score < 40)
          × ((score_server r completed planned).confidence ≢ high)
        ⊎ (80 ≤ (score_server r completed planned).quality_score)
          × ((score_server r completed planned).confidence ≡ medium))
unfolding score_server
score_server-retry_iff r completed planned h k = ground arith

-- The confidence of a plan with more than one attempt: high when all are done, medium from half
-- of them, low below.
pub confidence_from_attempts_table :
    (completed planned : ℕ)
    → 1 < planned
    → ((confidence_from_attempts completed planned ≡ high) ↔ (planned ≤ completed))
      × ((confidence_from_attempts completed planned ≡ medium)
          ↔ ((completed < planned) × (planned ≤ completed + completed)))
      × ((confidence_from_attempts completed planned ≡ low) ↔ (completed + completed < planned))
unfolding confidence_from_attempts
confidence_from_attempts_table completed planned h = ground arith
