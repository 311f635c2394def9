-- ===== src/Verification/Pipeline/Runs.antt =====
-- A series of runs on one record: the retry queue is left after the planned attempts.
use discovery_application.Base.{
  ℕ, suc, ◌+◌, ◌≤◌, ◌≡◌, ◌≢◌, sym, ◌∙◌, false, arith, List, [], ◌∷◌, length, All, min,
}
use discovery_application.Verification.Models.{McpServerRecord, ServerStatus, Transport}
use discovery_application.Verification.Checks.{AttemptOutcome}
use discovery_application.Verification.Pipeline.{
  Providers, finalize, attempts_completed_for, attempts_planned_for,
}
use discovery_application.Verification.Pipeline.Fields.{
  finalize-status, finalize-transport, finalize-attempts,
}
use discovery_application.Verification.Pipeline.Verdict.{verdict-retry-attempts_left}

-- Each run reads the record that the one before it left.
unfoldable pub runs : Providers → List (AttemptOutcome × ℕ) → McpServerRecord → McpServerRecord
runs providers [] r = r
runs providers ((o, now) ∷ rest) r = runs providers rest (finalize providers r o now)

attempts_remote :
    (r : McpServerRecord) (o : AttemptOutcome)
    → r.transport ≡ Transport.remote
    → o.auth_exercised ≡ false
    → (attempts_planned_for r o ≡ 3)
      × (attempts_completed_for r o ≡ min (r.attempts_completed + 1) 3)
unfolding attempts_completed_for
attempts_remote r o t e = (rw (t, e), rw (t, e))

runs-exhausted :
    (providers : Providers) (o : AttemptOutcome) (now : ℕ) (rest : List (AttemptOutcome × ℕ))
    (r : McpServerRecord)
    → r.transport ≡ Transport.remote
    → All (λ run. run.0.auth_exercised ≡ false) ((o, now) ∷ rest)
    → 3 ≤ suc (length rest) + r.attempts_completed
    → (runs providers ((o, now) ∷ rest) r).status ≢ ServerStatus.retry_pending
unfolding runs
runs-exhausted providers o now [] r t (e, _) h = λ again. omega (
  arith,
  verdict-retry-attempts_left providers r o (sym (finalize-status providers r o now) ∙ again),
  (attempts_remote r o t e).0,
  (attempts_remote r o t e).1,
)
runs-exhausted providers o now ((p, later) ∷ rest) r t (e, es) h =
    runs-exhausted providers p later rest (finalize providers r o now)
      (finalize-transport providers r o now ∙ t) es
      (omega (arith, (finalize-attempts providers r o now).0, (attempts_remote r o t e).1))

-- After three or more runs without credentials a remote server is not in the retry queue,
-- whatever the runs found.
pub runs-ne-retry :
    (providers : Providers) (os : List (AttemptOutcome × ℕ)) (r : McpServerRecord)
    → r.transport ≡ Transport.remote
    → All (λ run. run.0.auth_exercised ≡ false) os
    → 3 ≤ length os
    → (runs providers os r).status ≢ ServerStatus.retry_pending
runs-ne-retry providers [] r t e h = absurd (omega arith)
runs-ne-retry providers ((o, now) ∷ rest) r t e h =
    runs-exhausted providers o now rest r t e (omega arith)
