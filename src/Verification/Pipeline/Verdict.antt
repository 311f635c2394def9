-- ===== src/Verification/Pipeline/Verdict.antt =====
-- Which status a run may end in: `_finalize` of
-- platform/backend/app/verification/verifiers.py.
use native.Mathlib.Decide.{dec_lt}
use discovery_application.Base.{
  ℕ, ◌≤◌, ◌<◌, ◌≡◌, ◌≢◌, ◌⊎◌, inl, inr, refl, true, false, arith, Bool, any, if◌then◌else◌,
}
use discovery_application.Verification.Models.{
  ServerStatus, StageOutcomeKind, high, McpServerRecord, is_retryable, is_auth_required,
  is_malformed,
}
use discovery_application.Verification.Scoring.{
  SoftCheckResults, score_server, confidence_from_attempts,
}
use discovery_application.Verification.Scoring.Bounds.{score_server-verified-invocation}
use discovery_application.Verification.Checks.{AttemptOutcome, build_soft_checks, call_succeeded}
use discovery_application.Verification.Checks.Proper.{
  build_soft_checks-AreProper, any-call_succeeded,
}
use discovery_application.Verification.Pipeline.{
  Providers, verdict, scored, retry_rule, auth_rule, attempts_completed_for, attempts_planned_for,
}

-- The attempts that a run completes are at least one and at most the plan.
pub attempts_bounds :
    (r : McpServerRecord) (o : AttemptOutcome)
    → (0 < attempts_completed_for r o) × (attempts_completed_for r o ≤ attempts_planned_for r o)
unfolding attempts_completed_for
attempts_bounds r o = ground arith

hard_fail_none : (o : AttemptOutcome) → (build_soft_checks o).hard_fail ≡ false
unfolding build_soft_checks
hard_fail_none o = refl

-- The scoring engine rejects, or gives up retrying, only by these confidences.
confidence_of_rejected :
    (s : SoftCheckResults) (completed planned : ℕ)
    → s.hard_fail ≡ false
    → (score_server s completed planned).status ≡ ServerStatus.rejected
    → confidence_from_attempts completed planned ≡ high
unfolding score_server
confidence_of_rejected s completed planned h e = ground arith

confidence_of_retry :
    (s : SoftCheckResults) (completed planned : ℕ)
    → (score_server s completed planned).status ≡ ServerStatus.retry_pending
    → confidence_from_attempts completed planned ≢ high
unfolding score_server
confidence_of_retry s completed planned e = ground arith

scored-ne-malformed :
    (s : SoftCheckResults) (completed planned : ℕ)
    → (score_server s completed planned).status ≢ ServerStatus.malformed
unfolding score_server
scored-ne-malformed s completed planned = ground arith

attempts_of_high :
    (completed planned : ℕ)
    → 0 < completed
    → confidence_from_attempts completed planned ≡ high
    → planned ≤ completed
unfolding confidence_from_attempts
attempts_of_high completed planned h e = ground arith

high_of_attempts :
    (completed planned : ℕ)
    → planned ≤ completed
    → confidence_from_attempts completed planned ≡ high
unfolding confidence_from_attempts
high_of_attempts completed planned h = ground arith

-- The cascade over a status that the scoring engine gave.
module _ (kind : StageOutcomeKind) (blocked exercised consent : Bool) (completed planned : ℕ)
    (status : ServerStatus) where
  abbrev settled : ServerStatus
  settled = auth_rule kind exercised consent (
      retry_rule kind blocked completed planned
        (if is_malformed kind then ServerStatus.malformed else status))

  settled-rejected : settled ≡ ServerStatus.rejected → status ≡ ServerStatus.rejected
  unfolding auth_rule retry_rule
  settled-rejected h = ground arith

  settled-verified : settled ≡ ServerStatus.verified → status ≡ ServerStatus.verified
  unfolding auth_rule retry_rule
  settled-verified h = ground arith

  settled-retry :
      settled ≡ ServerStatus.retry_pending
      → (completed < planned) ⊎ (status ≡ ServerStatus.retry_pending)
  unfolding auth_rule retry_rule
  settled-retry h = ground arith

  settled-not_final :
      ((is_retryable kind ≡ true) × (completed < planned))
        ⊎ ((is_auth_required kind ≡ true) × (exercised ≡ false))
      → (settled ≢ ServerStatus.rejected) × (settled ≢ ServerStatus.malformed)
  unfolding auth_rule retry_rule
  settled-not_final h = (ground arith, ground arith)

-- A run that could not tell is no verdict: a transport failure or a timeout with attempts left,
-- or a server that asked for credentials that the run did not use, is never `rejected` and never
-- `malformed`.
pub verdict-not_final :
    (providers : Providers) (r : McpServerRecord) (o : AttemptOutcome)
    → ((is_retryable o.kind ≡ true) × (attempts_completed_for r o < attempts_planned_for r o))
      ⊎ ((is_auth_required o.kind ≡ true) × (o.auth_exercised ≡ false))
    → (verdict providers r o ≢ ServerStatus.rejected)
      × (verdict providers r o ≢ ServerStatus.malformed)
unfolding verdict scored
verdict-not_final providers r o h = settled-not_final o.kind _ _ _ _ _ _ h

-- A server is rejected only when its planned attempts are used up.
pub verdict-rejected-exhausted :
    (providers : Providers) (r : McpServerRecord) (o : AttemptOutcome)
    → verdict providers r o ≡ ServerStatus.rejected
    → attempts_completed_for r o ≡ attempts_planned_for r o
unfolding verdict scored
verdict-rejected-exhausted providers r o h =
    let scored_rejected = settled-rejected o.kind _ _ _ _ _ _ h in
    let (low, up) = attempts_bounds r o in
    let sure =
      confidence_of_rejected (build_soft_checks o) _ _ (hard_fail_none o) scored_rejected in
    omega (arith, attempts_of_high _ _ low sure)

-- A server goes back to the retry queue only while attempts of its plan are left.
pub verdict-retry-attempts_left :
    (providers : Providers) (r : McpServerRecord) (o : AttemptOutcome)
    → verdict providers r o ≡ ServerStatus.retry_pending
    → attempts_completed_for r o < attempts_planned_for r o
unfolding verdict scored
verdict-retry-attempts_left providers r o h = elim (settled-retry o.kind _ _ _ _ _ _ h) [
  | inl left ↦ left
  | inr again ↦
      let unsure = confidence_of_retry (build_soft_checks o) _ _ again in
      elim (dec_lt (attempts_completed_for r o) (attempts_planned_for r o)) [
        | yes p ↦ p
        | no p ↦ absurd (unsure (high_of_attempts _ _ (omega arith)))
      ]
]

-- A run that ends in `verified` has a tool call that succeeded.
pub verdict-verified-invocation :
    (providers : Providers) (r : McpServerRecord) (o : AttemptOutcome)
    → verdict providers r o ≡ ServerStatus.verified
    → any call_succeeded o.tool_outcomes ≡ true
unfolding verdict scored
verdict-verified-invocation providers r o h =
    let scored_verified = settled-verified o.kind _ _ _ _ _ _ h in
    let (f, ran, some_success) =
      score_server-verified-invocation (build_soft_checks o) _ _ (build_soft_checks-AreProper o)
        scored_verified in
    any-call_succeeded o f ran some_success
