-- ===== src/Tests/Pipeline.antt =====
-- The pipeline's verdict on concrete attempts.
use discovery_application.Base.{
  ◌+◌, ◌*◌, ◌≡◌, ◌≢◌, inl, refl, true, false, none, some, [], ◌∷◌, any, arith,
}
use discovery_application.Verification.Models.{Transport, ServerStatus, McpServerRecord, is_success}
use discovery_application.Verification.Scoring.{ttl_days_for}
use discovery_application.Verification.Checks.{
  build_soft_checks, stage_of, succeeded, reached, graded, call_succeeded, was_judged, judged_valid,
  semantic_ratio, malformed_check, connected,
}
use discovery_application.Verification.Pipeline.{
  Providers, attempts_completed_for, attempts_planned_for, scored, verdict, awaits_consent,
  has_active_credential, badge_earned, finalize, base_updates, success_updates, badge_updates,
  rejection_updates, microseconds_per_day,
}
use discovery_application.Verification.Pipeline.Verdict
use discovery_application.Verification.Pipeline.Badge
use discovery_application.Verification.Pipeline.Runs
use discovery_application.Verification.Pipeline.Runs.{runs}
use discovery_application.Tests.Scoring.{engine}
use discovery_application.Tests.Samples.{server, ran, lost}

unfoldable pub pipeline : Unit {0}
unfolding engine build_soft_checks stage_of succeeded reached graded call_succeeded was_judged
    judged_valid semantic_ratio malformed_check connected attempts_completed_for
    attempts_planned_for scored verdict awaits_consent has_active_credential badge_earned finalize
    base_updates success_updates badge_updates rejection_updates ttl_days_for runs
pipeline = tt

abbrev alone : Providers
alone = none

abbrev local_server : McpServerRecord
local_server = record (server "a") { transport = Transport.local }

abbrev badged : McpServerRecord
badged = record local_server {
  status = ServerStatus.verified;
  verified_badge = true;
  ttl_expires_at = some 5;
}

-- A local server with one good call is verified at once; a remote one waits for its next runs.
first_runs :
    ((finalize alone local_server (ran "success") 7).status ≡ ServerStatus.verified)
    × ((finalize alone (server "a") (ran "success") 7).status ≡ ServerStatus.review)
    × ((finalize alone (server "a") lost 7).status ≡ ServerStatus.retry_pending)
    × ((finalize alone local_server lost 7).status ≡ ServerStatus.rejected)
unfolding pipeline
first_runs = (refl, refl, refl, refl)

-- A run that connected, but whose call failed, keeps the old badge.
stale_badge :
    ((finalize alone badged (ran "error") 7).status ≡ ServerStatus.review)
    × ((finalize alone badged (ran "error") 7).verified_badge ≡ true)
unfolding pipeline
stale_badge = (refl, refl)

verdict-not_final_example :
    (verdict alone (server "a") lost ≢ ServerStatus.rejected)
    × (verdict alone (server "a") lost ≢ ServerStatus.malformed)
unfolding pipeline
verdict-not_final_example =
    Verdict.verdict-not_final alone (server "a") lost (inl (refl, omega arith))

finalize-verified_example :
    (is_success (ran "success").kind ≡ true)
    × (any call_succeeded (ran "success").tool_outcomes ≡ true)
    × ((finalize alone local_server (ran "success") 7).verified_badge ≡ true)
    × ((finalize alone local_server (ran "success") 7).verified_via_auth ≡ false)
    × ((finalize alone local_server (ran "success") 7).invocation_verified ≡ true)
    × ((finalize alone local_server (ran "success") 7).ttl_expires_at
        ≡ some (7 + ttl_days_for Transport.local * microseconds_per_day))
unfolding pipeline
finalize-verified_example =
    Badge.finalize-verified alone local_server (ran "success") 7 (inl refl) refl

runs-ne-retry_example :
    (runs alone ((lost, 1) ∷ (lost, 2) ∷ (lost, 3) ∷ []) (server "a")).status
    ≢ ServerStatus.retry_pending
runs-ne-retry_example =
    Runs.runs-ne-retry alone ((lost, 1) ∷ (lost, 2) ∷ (lost, 3) ∷ []) (server "a") refl
      (refl, (refl, (refl, tt))) (omega arith)
