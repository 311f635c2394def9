-- ===== src/Verification/Verify/Rejections.antt =====
-- Failures that end in a rejection: a sandbox that could not be created, and a credential whose
-- scopes do not suffice.
use discovery_application.Base.{
  round_half_even, ℕ, ◌≤◌, ◌≡◌, refl, ◌∙◌, String, Bool, if◌then◌else◌, true, false, Option, some,
  [], arith,
}
use discovery_application.Verification.Models.{
  McpServerRecord, ServerStatus, StageOutcomeKind, is_local, is_auth_required, is_malformed,
  protocol_fail, VerificationStage,
}
use discovery_application.Verification.Scoring.{
  score_server, confidence_from_attempts, part, add, latency_entry, security_entry, breakdown_of,
  credit, deduction, total,
}
use discovery_application.Verification.Checks.{
  AttemptOutcome, build_soft_checks, connected, stage_of, succeeded, reached, graded,
  semantic_ratio, malformed_check,
}
use discovery_application.Verification.Pipeline.{
  Providers, finalize, verdict, scored, retry_rule, auth_rule, attempts_completed_for,
  attempts_planned_for,
}
use discovery_application.Verification.Pipeline.Fields.{finalize-status}
use discovery_application.Verification.Install.{LocalToolConfig, local_tool_config}
use discovery_application.Verification.Credentials.{credential_token_for}
use discovery_application.Verification.Invocation.{answered, timed_out, note}
use discovery_application.Verification.Local.{
  ConnectResult, failure, verify_local, on_config, run_crashed,
}
use discovery_application.Verification.Remote.{
  asked, scope_rejected, asks_for_credentials, retry_with_token, handle_remote_auth, on_answer,
  verify_remote,
}
use discovery_application.Verification.Verify.{Environment, attempt, verify}

-- The rules after scoring leave a rejection of an exhausted plan as it is.
settle-rejected :
    (kind : StageOutcomeKind) (blocked exercised consent : Bool) (n : ℕ) (status : ServerStatus)
    → is_auth_required kind ≡ false
    → is_malformed kind ≡ false
    → blocked ≡ false
    → status ≡ ServerStatus.rejected
    → auth_rule kind exercised consent
        (retry_rule kind blocked n n (if is_malformed kind then ServerStatus.malformed else status))
      ≡ ServerStatus.rejected
unfolding retry_rule auth_rule
settle-rejected kind blocked exercised consent n status asks malformed plain rejected = ground arith

-- A run on the last planned attempt that the engine rejects is rejected.
verdict_of_last :
    (providers : Providers) (r : McpServerRecord) (o : AttemptOutcome) (n : ℕ)
    → attempts_completed_for r o ≡ n
    → attempts_planned_for r o ≡ n
    → is_auth_required o.kind ≡ false
    → is_malformed o.kind ≡ false
    → (build_soft_checks o).auth_blocked ≡ false
    → (score_server (build_soft_checks o) n n).status ≡ ServerStatus.rejected
    → verdict providers r o ≡ ServerStatus.rejected
unfolding verdict scored
verdict_of_last providers r o n completed planned asks malformed blocked rejected =
    rw (completed, planned)
      (settle-rejected o.kind (build_soft_checks o).auth_blocked o.auth_exercised _ n _ asks
        malformed blocked rejected)

module _ (env : Environment) where
  -- What is left of a run whose sandbox was not created.
  abbrev crashed : String → AttemptOutcome
  crashed message = run_crashed env.clock env.dumps env.model env.repr env.local_run message []

  crashed-verdict :
      (providers : Providers) (r : McpServerRecord) (message : String)
      → is_local r.transport ≡ true
      → verdict providers r (crashed message) ≡ ServerStatus.rejected
  unfolding run_crashed attempts_completed_for attempts_planned_for build_soft_checks score_server
      connected stage_of succeeded reached graded semantic_ratio malformed_check note
      confidence_from_attempts part add latency_entry security_entry breakdown_of credit deduction
      total round_half_even
  crashed-verdict providers r message is_here =
      verdict_of_last providers r (crashed message) 1 (rw is_here (omega arith)) (rw is_here refl)
        refl refl refl refl

  -- A local server whose sandbox times out while it is created is rejected at its first attempt.
  pub verify-sandbox_timeout :
      (r : McpServerRecord) (providers : Providers) (now : ℕ) (config : LocalToolConfig)
      (message : String)
      → is_local r.transport ≡ true
      → local_tool_config r.install_cmd ≡ some config
      → env.local_run.create_container config ≡ timed_out message
      → (v : McpServerRecord) × ((verify env r providers now).0 ≡ some v)
        × (v.status ≡ ServerStatus.rejected)
  unfolding verify attempt verify_local on_config
  verify-sandbox_timeout r providers now config message is_here parsed late = (
    finalize providers r (crashed message) now,
    rw (verify, attempt, verify_local, on_config, is_here, parsed, late) refl,
    finalize-status providers r (crashed message) now ∙ crashed-verdict providers r message is_here,
  )

  module _ (r : McpServerRecord) (providers : Providers) (now : ℕ) (c retry : ConnectResult)
      (token : String) where
    -- The store after the first look for a token, and what the second look finds.
    abbrev looked_up : Option String × Providers
    looked_up = credential_token_for env.remote_run.refresh env.remote_run.now r providers

    abbrev looked_again : Option String × Providers
    looked_again =
        credential_token_for env.remote_run.refresh_again env.remote_run.later r looked_up.1

    abbrev out_of_scope : AttemptOutcome
    out_of_scope =
        failure protocol_fail (some "scope_not_granted") (some env.remote_run.connect_latency_ms) (
          note env.clock VerificationStage.connect StageOutcomeKind.malformed
            (some "credential rejected: scopes not granted for this server") (asked env.clock c))

    out_of_scope-verdict :
        is_local r.transport ≡ false
        → 2 ≤ r.attempts_completed
        → verdict looked_again.1 r out_of_scope ≡ ServerStatus.rejected
    unfolding attempts_completed_for attempts_planned_for build_soft_checks score_server connected
        stage_of succeeded reached graded semantic_ratio malformed_check note
        confidence_from_attempts part add latency_entry security_entry breakdown_of credit deduction
        total round_half_even
    out_of_scope-verdict is_remote used =
        verdict_of_last looked_again.1 r out_of_scope 3 (rw is_remote (omega arith))
          (rw is_remote refl) refl refl refl refl

    -- A remote server that answers a stored credential with a complaint about its scopes is
    -- rejected at its third attempt.
    pub verify-out_of_scope :
        is_local r.transport ≡ false
        → 2 ≤ r.attempts_completed
        → env.remote_run.connect looked_up.0 ≡ answered c
        → asks_for_credentials c ≡ true
        → looked_again.0 ≡ some token
        → env.remote_run.reconnect (some token) ≡ answered retry
        → retry.connected ≡ false
        → scope_rejected retry ≡ true
        → (v : McpServerRecord) × ((verify env r providers now).0 ≡ some v)
          × (v.status ≡ ServerStatus.rejected)
    unfolding verify attempt verify_remote on_answer handle_remote_auth retry_with_token
        scope_rejected finalize
    verify-out_of_scope is_remote used dialled asks found redialled refused scopes = (
      finalize looked_again.1 r out_of_scope now,
      rw
          (
            verify, attempt, is_remote, verify_remote, dialled, on_answer, asks, handle_remote_auth,
            found, redialled, retry_with_token, refused, scopes,
          )
          refl,
      finalize-status looked_again.1 r out_of_scope now ∙ out_of_scope-verdict is_remote used,
    )
