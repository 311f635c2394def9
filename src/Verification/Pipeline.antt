-- ===== src/Verification/Pipeline.antt =====
-- The verdict on one attempt and what it writes to the record: `_finalize`,
-- `_has_active_credential` and `_decision_from` of
-- platform/backend/app/verification/verifiers.py. The keys of the `updates` dict are the fields
-- of a record that is updated in the same order; the row is the record that was read.
pub mod Verdict
pub mod Fields
pub mod Badge
pub mod History
pub mod Runs
use discovery_application.Base.{
  ℕ, ◌+◌, ◌*◌, ◌-◌, ◌<◌, min, String, Bool, true, false, not, ◌&&◌, ◌||◌, Option, none, some, List,
  [], ◌∷◌, ◌++◌, length, drop, any, is_nil, ltb, ◌==◌, str_eq, if◌then◌else◌, median,
}
use discovery_application.Verification.Models.{
  AuthType, OauthFlow, ServerStatus, StageOutcomeKind, VerificationStage, StageResult, ToolOutcome,
  LatencyCategory, McpServerRecord, VerificationDetails, VerificationDecisionRecord, Stamp, at,
  is_local, is_verified, is_review, is_success, is_auth_required, is_malformed, is_retryable,
}
use discovery_application.Verification.Scoring.{
  SoftCheckResults, ScoreOutcome, score_server, remote_attempts_planned, ttl_days_for,
}
use discovery_application.Verification.Checks.{
  AttemptOutcome, build_soft_checks, call_succeeded, latency_category, updates_stage,
}

-- A row of the credential store.
pub record ProviderCredentialRecord : Type 0 where
  pub provider : String
  pub client_id : String
  pub client_secret : Option String
  pub token_endpoint : Option String
  pub access_token : Option String
  pub refresh_token : Option String
  pub token_expires_at : Option Stamp
  pub status : String

-- `self._provider_repository`, which may be absent, as the function that `get` computes.
abbrev pub Providers : Type 0
Providers = Option (String → Option ProviderCredentialRecord)

-- A text that is neither None nor empty.
abbrev pub is_set : Option String → Bool
is_set none = false
is_set (some s) = not (str_eq s "")

abbrev pub is_active : Option ProviderCredentialRecord → Bool
is_active none = false
is_active (some c) = str_eq c.status "active" && is_set c.refresh_token

abbrev pub stored : Providers → Option String → Option ProviderCredentialRecord
stored none provider = none
stored (some get) none = none
stored (some get) (some provider) = if str_eq provider "" then none else get provider

unfoldable pub has_active_credential : Providers → McpServerRecord → Bool
has_active_credential providers record_ = is_active (stored providers record_.oauth_provider)

abbrev is_oauth2 : AuthType → Bool
is_oauth2 AuthType.oauth2 = true
is_oauth2 _ = false

abbrev is_authorization_code : Option OauthFlow → Bool
is_authorization_code (some OauthFlow.authorization_code) = true
is_authorization_code _ = false

abbrev pub max_stage_results_kept : ℕ
max_stage_results_kept = 60

-- The plan for this run, and the attempts that it completes.
unfoldable pub attempts_planned_for : McpServerRecord → AttemptOutcome → ℕ
attempts_planned_for r o =
    if is_local r.transport || o.auth_exercised then 1 else remote_attempts_planned

unfoldable pub attempts_completed_for : McpServerRecord → AttemptOutcome → ℕ
unfolding attempts_planned_for
attempts_completed_for r o = min (r.attempts_completed + 1) (attempts_planned_for r o)

-- The scoring engine's decision on the run.
unfoldable pub scored : McpServerRecord → AttemptOutcome → ScoreOutcome
scored r o =
    score_server (build_soft_checks o) (attempts_completed_for r o) (attempts_planned_for r o)

-- The status cascade after scoring, from the malformed rule to the auth-blocked one.
unfoldable pub retry_rule : StageOutcomeKind → Bool → ℕ → ℕ → ServerStatus → ServerStatus
retry_rule kind auth_blocked completed planned status =
    if is_retryable kind
    then if ltb completed planned
      then ServerStatus.retry_pending
      else if auth_blocked
      then ServerStatus.partial_verified
      else status
    else status

unfoldable pub auth_rule : StageOutcomeKind → Bool → Bool → ServerStatus → ServerStatus
auth_rule kind auth_exercised awaits_consent status =
    if is_auth_required kind && not auth_exercised && not (is_verified status || is_review status)
    then if awaits_consent
      then ServerStatus.oauth_pending_consent
      else ServerStatus.partial_verified
    else status

unfoldable pub awaits_consent : Providers → McpServerRecord → Bool
awaits_consent providers r =
    is_oauth2 r.auth_type
    && is_authorization_code r.oauth_flow
    && not (has_active_credential providers r)

unfoldable pub verdict : Providers → McpServerRecord → AttemptOutcome → ServerStatus
unfolding retry_rule auth_rule
verdict providers r o =
    let soft = build_soft_checks o in
    let status = (scored r o).status in
    let settled = if is_malformed o.kind then ServerStatus.malformed else status in
    let retried =
      retry_rule o.kind soft.auth_blocked (attempts_completed_for r o) (attempts_planned_for r o)
        settled in
    auth_rule o.kind o.auth_exercised (awaits_consent providers r) retried

unfoldable pub badge_earned : ServerStatus → AttemptOutcome → Bool
badge_earned status o =
    is_verified status && not (is_nil o.tool_outcomes) && any call_succeeded o.tool_outcomes

-- `[o.duration_ms for o in tool_outcomes if o.duration_ms]`.
unfoldable pub durations : List ToolOutcome → List ℕ
durations [] = []
durations (o ∷ os) = elim o.duration_ms [
  | none ↦ durations os
  | some ms ↦ if ms == 0 then durations os else ms ∷ durations os
]

unfoldable pub latency_p50 : AttemptOutcome → Option ℕ
unfolding durations
latency_p50 o =
    let latencies =
      durations o.tool_outcomes
      ++ elim o.connect_latency_ms [ none ↦ [] | some ms ↦ if ms == 0 then [] else ms ∷ [] ] in
    if is_nil latencies then none else some (median latencies)

-- `_latency_category(p50).value if p50 else None`.
unfoldable pub latency_label : Option ℕ → Option LatencyCategory
latency_label none = none
latency_label (some p50) = if p50 == 0 then none else some (latency_category (some p50))

abbrev pub microseconds_per_day : ℕ
microseconds_per_day = 86_400_000_000

-- The stages that are recorded, with the note on an authenticated run.
unfoldable pub recorded_stages : AttemptOutcome → ℕ → List StageResult
recorded_stages o now =
    if o.auth_exercised
    then o.stage_results
      ++ (record {
        stage = VerificationStage.security;
        kind = StageOutcomeKind.success;
        attempt = 1;
        detail = some "verified with credentials: auth flow exercised end-to-end";
        observed_at = now;
      }
          ∷ [])
    else o.stage_results

-- `xs[-n:]`.
unfoldable pub keep_last {ℓ} : {A : Type ℓ} → ℕ → List A → List A
keep_last n xs = drop (length xs - n) xs

unfoldable pub next_details : McpServerRecord → AttemptOutcome → ℕ → VerificationDetails
unfolding recorded_stages
next_details r o now =
    let result = scored r o in
    let old = r.verification_details in
    record old {
      stages = keep_last max_stage_results_kept (old.stages ++ recorded_stages o now);
      last_score = some (record {
        score = result.quality_score;
        confidence = result.confidence;
        breakdown = result.breakdown;
        attempt = attempts_completed_for r o;
      });
      tools = o.tool_outcomes;
    }

-- The fields that every run writes.
unfoldable pub base_updates : Providers → McpServerRecord → AttemptOutcome → ℕ → McpServerRecord
base_updates providers r o now =
    let result = scored r o in
    record r {
      status = verdict providers r o;
      quality_score = result.quality_score;
      confidence = result.confidence;
      attempts_completed = attempts_completed_for r o;
      attempts_planned = attempts_planned_for r o;
      last_attempt_at = some (at now);
    }

-- What a run that connected writes on top.
unfoldable pub success_updates :
    ServerStatus → AttemptOutcome → ℕ → McpServerRecord → McpServerRecord
success_updates status o now r =
    if is_success o.kind
    then record r {
      declared_tools = o.tools;
      invocation_verified = any call_succeeded o.tool_outcomes;
      latency_p50_ms = latency_p50 o;
      latency_category = latency_label (latency_p50 o);
      last_verified_at = some now;
      ttl_expires_at =
          if is_verified status
          then some (now + ttl_days_for r.transport * microseconds_per_day)
          else none;
    }
    else r

-- The badge: earned on a run that connected, dropped by any other run.
unfoldable pub badge_updates : ServerStatus → AttemptOutcome → McpServerRecord → McpServerRecord
badge_updates status o r =
    if is_success o.kind
    then if badge_earned status o
      then record r {
        verified_badge = true;
        verified_via_auth = o.auth_exercised;
        last_verified_via = some (if o.auth_exercised then "auth" else "anonymous");
      }
      else r
    else if r.verified_badge
    then record r { verified_badge = false; verified_via_auth = false; last_verified_via = none }
    else r

unfoldable pub rejection_updates : ScoreOutcome → AttemptOutcome → McpServerRecord → McpServerRecord
rejection_updates result o r =
    let hard =
      if result.hard_fail
      then record r {
        rejection_stage = some VerificationStage.handshake;
        rejection_check = some "handshake_valid";
      }
      else r in
    if is_malformed o.kind
    then record hard {
      rejection_stage = some VerificationStage.install;
      rejection_check = some "install_connect";
    }
    else hard

-- The record that `_finalize` leaves.
unfoldable pub finalize : Providers → McpServerRecord → AttemptOutcome → ℕ → McpServerRecord
finalize providers r o now =
    let status = verdict providers r o in
    let base = base_updates providers r o now in
    let verified = success_updates status o now base in
    let badged = badge_updates status o verified in
    let rejected = rejection_updates (scored r o) o badged in
    record rejected { verification_details = next_details r o now }

-- `_decision_from`, over the stages as `_finalize` left them.
unfoldable pub decision_from :
    McpServerRecord → AttemptOutcome → ServerStatus → ℕ → VerificationDecisionRecord
decision_from r o status now =
    let result = scored r o in
    record {
      server_id = r.server_id;
      transport = r.transport;
      stage = updates_stage (recorded_stages o now);
      check = r.rejection_check;
      reason = elim result.reason [ some reason ↦ some reason | none ↦ o.detail ];
      quality_score = result.quality_score;
      confidence = result.confidence;
      resulting_status = status;
    }
