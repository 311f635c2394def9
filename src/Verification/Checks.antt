-- ===== src/Verification/Checks.antt =====
-- One verification attempt and the soft checks made of it: `AttemptOutcome`, `_build_soft_checks`
-- and the helpers of platform/backend/app/verification/verifiers.py.
pub mod Proper
use discovery_application.Base.{
  ℕ, ◌+◌, ◌*◌, ◌/◌, ◌%◌, ◌-◌, ◌<◌, zero, suc, String, Bool, true, false, not, ◌&&◌, ◌||◌, Option,
  none, some, List, [], ◌∷◌, ◌++◌, length, any, all, count, is_nil, ltb, leb, ◌==◌, str_eq,
  if◌then◌else◌,
}
use discovery_application.Verification.Models.{
  VerificationStage, StageOutcomeKind, StageResult, Tool, ToolOutcome, LatencyCategory, fast,
  moderate, slow, success, is_success, is_auth_required,
}
use discovery_application.Verification.Scoring.{Ratio, SoftCheckResults}

pub record AttemptOutcome : Type 0 where
  pub kind : StageOutcomeKind
  pub detail : Option String
  pub tools : List Tool
  pub connect_latency_ms : Option ℕ
  pub tool_outcomes : List ToolOutcome
  pub malformed_graceful : Option Bool
  pub security_flagged : Bool
  pub stage_results : List StageResult
  pub auth_exercised : Bool

abbrev stage_index : VerificationStage → ℕ
stage_index VerificationStage.ingestion = 0
stage_index VerificationStage.prefilter = 1
stage_index VerificationStage.install = 2
stage_index VerificationStage.connect = 3
stage_index VerificationStage.handshake = 4
stage_index VerificationStage.tools_list = 5
stage_index VerificationStage.tool_invocation = 6
stage_index VerificationStage.malformed_input = 7
stage_index VerificationStage.security = 8
stage_index VerificationStage.semantic = 9

-- `stages.get(stage)` in `{s.stage: s for s in stage_results}`: a later entry replaces an earlier.
unfoldable pub stage_of : VerificationStage → List StageResult → Option StageResult
stage_of stage [] = none
stage_of stage (s ∷ rest) = elim (stage_of stage rest) [
  | some found ↦ some found
  | none ↦ if stage_index s.stage == stage_index stage then some s else none
]

-- `s and s.kind == "success"`.
unfoldable pub succeeded : Option StageResult → Bool
succeeded none = false
succeeded (some s) = is_success s.kind

-- `connect_ok and connect_ok.kind in ("success", "auth_required")`.
unfoldable pub reached : Option StageResult → Bool
reached none = false
reached (some s) = is_success s.kind || is_auth_required s.kind

abbrev pub one : Ratio
one = record { num = 1; den = 1 }

abbrev pub nought : Ratio
nought = record { num = 0; den = 1 }

-- `1.0 if passed else 0.0 if stage else None`.
unfoldable pub graded : Bool → Option StageResult → Option Ratio
graded passed none = none
graded passed (some s) = some (if passed then one else nought)

-- `o.invocation_status == "success"`.
unfoldable pub call_succeeded : ToolOutcome → Bool
call_succeeded o = elim o.invocation_status [ none ↦ false | some s ↦ str_eq s "success" ]

unfoldable pub was_judged : ToolOutcome → Bool
was_judged o = elim o.semantic_valid [ none ↦ false | some v ↦ true ]

unfoldable pub judged_valid : ToolOutcome → Bool
judged_valid o = elim o.semantic_valid [ none ↦ false | some v ↦ v ]

unfoldable pub semantic_ratio : List ToolOutcome → Option Ratio
semantic_ratio outcomes =
    if ltb 0 (count was_judged outcomes)
    then some (record { num = count judged_valid outcomes; den = count was_judged outcomes })
    else none

unfoldable pub malformed_check : Option Bool → Option Ratio
malformed_check none = none
malformed_check (some graceful) = some (if graceful then one else nought)

-- Whether the run reached the server at all.
unfoldable pub connected : List StageResult → Bool
unfolding succeeded reached
connected stages =
    succeeded (stage_of VerificationStage.install stages)
    || reached (stage_of VerificationStage.connect stages)
    || succeeded (stage_of VerificationStage.handshake stages)

unfoldable pub build_soft_checks : AttemptOutcome → SoftCheckResults
build_soft_checks o =
    let stages = o.stage_results in
    let handshake = stage_of VerificationStage.handshake stages in
    let tools_list = stage_of VerificationStage.tools_list stages in
    let ran = not (is_nil o.tool_outcomes) in
    record {
      install_connect =
          if connected stages then some one else if is_success o.kind then some nought else none;
      handshake_valid = graded (succeeded handshake) handshake;
      tools_list_schema = graded (succeeded tools_list && not (is_nil o.tools)) tools_list;
      tool_invocation =
          if ran
          then some
              (record { num = count call_succeeded o.tool_outcomes; den = length o.tool_outcomes })
          else none;
      semantic_validity = semantic_ratio o.tool_outcomes;
      no_crash_malformed_input = malformed_check o.malformed_graceful;
      security_penalty = if o.security_flagged then one else nought;
      latency_category = none;
      hard_fail = false;
      auth_blocked = not ran && is_auth_required o.kind;
      invocation_attempted = ran;
      checks_run = 0;
      notes =
          if is_success o.kind && all call_succeeded o.tool_outcomes
          then "all attempted invocations succeeded" ∷ []
          else [];
    }

-- `_latency_category`.
unfoldable pub latency_category : Option ℕ → LatencyCategory
latency_category none = moderate
latency_category (some p50_ms) =
    if ltb p50_ms 2000 then fast else if ltb p50_ms 10000 then moderate else slow

-- `_classify_remote_failure`.
unfoldable pub classify_remote_failure : Option String → StageOutcomeKind
classify_remote_failure none = StageOutcomeKind.transport_fail
classify_remote_failure (some reason) =
    if str_eq reason "connection_error" || str_eq reason "timeout"
    then StageOutcomeKind.transport_fail
    else if str_eq reason "not_found" || str_eq reason "incompatible"
    then StageOutcomeKind.protocol_fail
    else if str_eq reason "rate_limited"
    then StageOutcomeKind.transport_fail
    else StageOutcomeKind.protocol_fail

-- `next_retry_delay`, over `REMOTE_RETRY_DELAYS_S` of timeout_policy.py.
unfoldable pub next_retry_delay : ℕ → ℕ
next_retry_delay zero = 0
next_retry_delay (suc zero) = 3600
next_retry_delay (suc (suc n)) = 21600

-- `updates_stage`: the stage of the last entry.
unfoldable pub updates_stage : List StageResult → Option VerificationStage
updates_stage [] = none
updates_stage (s ∷ []) = some s.stage
updates_stage (s ∷ t ∷ rest) = updates_stage (t ∷ rest)
