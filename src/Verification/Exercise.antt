-- ===== src/Verification/Exercise.antt =====
-- Calling the tools of a server: `_exercise_local_tools` and `_exercise_remote_tools` of
-- platform/backend/app/verification/verifiers.py. The clients' answers are
-- parameters, by the number of the tool in the list that is called. The stage recorded after `n`
-- others reads the clock as `clock n`.
pub mod Calls
pub mod Readonly
use Prim.Native.String.{◌++◌ as str_append}
use discovery_application.Base.{
  ℕ, suc, String, Bool, true, false, not, ◌&&◌, ◌||◌, Option, none, some, List, [], ◌∷◌, ◌++◌, any,
  take, keep, length, is_nil, on_some, str_eq, if◌then◌else◌, lower, contains, is_empty, take_chars,
  decimal,
}
use discovery_application.Verification.Models.{
  Tool, ToolOutcome, StageResult, VerificationStage, StageOutcomeKind, success, auth_required,
  security_flag,
}
use discovery_application.Verification.Timeouts.{effective_timeout_s, tool_policy, is_readonly_tool}
use discovery_application.Verification.Judge.{
  Json, Fields, SemanticVerdict, heuristic_judge, llm_judge,
}
use discovery_application.Verification.Invocation.{
  max_tools_invoked, Reply, answered, InvokeResult, LanguageModel, Exercise, or_text,
  is_security_flag, security_flagged, called, call_raised, call_overdue, note, call_each,
  judge_output, call_returned, local_call, remote_call, answered, timed_out, raised,
}

-- A probe with malformed input of a local server, and whether its process ran before and after.
pub record LocalProbe : Type 0 where
  pub before_alive : Bool
  pub still_alive : Bool
  pub reply : Reply InvokeResult

abbrev said_timed_out : InvokeResult → Bool
said_timed_out r = str_eq r.status "error" && contains (lower (or_text r.error "")) "timed out"

abbrev noted_probe :
    (ℕ → ℕ) → Bool → String → String → List StageResult → Option Bool × List StageResult
noted_probe clock graceful good bad stages = (
  some graceful,
  note clock VerificationStage.malformed_input (if graceful then success else security_flag)
      (some (if graceful then good else bad)) stages,
)

abbrev failed_probe : (ℕ → ℕ) → String → List StageResult → List StageResult
failed_probe clock message stages =
    note clock VerificationStage.malformed_input security_flag (some message) stages

unfoldable pub local_probe :
    (ℕ → ℕ) → Bool → Bool → Reply InvokeResult → List StageResult → Option Bool × List StageResult
unfolding note
local_probe clock before_alive still_alive (answered r) stages =
    noted_probe clock (before_alive && still_alive && not (said_timed_out r))
      "server survived malformed input with structured error"
      "server crashed or hung on malformed input" stages
local_probe clock before_alive still_alive (timed_out message) stages = (
  some false,
  failed_probe clock (str_append "malformed-input probe failed: " (take_chars 200 message)) stages,
)
local_probe clock before_alive still_alive (raised message) stages = (
  some false,
  failed_probe clock (str_append "malformed-input probe failed: " (take_chars 200 message)) stages,
)

abbrev broke_off : Option String → Bool
broke_off none = false
broke_off (some reason) = str_eq reason "timeout" || str_eq reason "connection_error"

unfoldable pub remote_probe :
    (ℕ → ℕ) → Reply InvokeResult → List StageResult → Option Bool × List StageResult
unfolding note
remote_probe clock (answered r) stages =
    noted_probe clock
      (str_eq r.status "success" || str_eq r.status "error" && not (broke_off r.auth_reason))
      "graceful structured error on malformed input" "ungainly failure on malformed input" stages
remote_probe clock (timed_out message) stages = (
  none,
  failed_probe clock (str_append "malformed probe error: " (take_chars 200 message)) stages,
)
remote_probe clock (raised message) stages = (
  none,
  failed_probe clock (str_append "malformed probe error: " (take_chars 200 message)) stages,
)

-- The tools that may be called: with credentials only those that look read-only.
unfoldable pub invocable : Bool → List Tool → List Tool
unfolding is_readonly_tool
invocable has_token tools =
    take max_tools_invoked
      (keep (λ t. not has_token || is_readonly_tool t.name t.description) tools)

module _ (clock : ℕ → ℕ) (dumps : Fields → String) (model : Option LanguageModel)
    (invoke : ℕ → Tool → Reply InvokeResult) where
  -- The probe of the first tool, where it has a name.
  unfoldable pub probe_first_local :
      (Tool → LocalProbe) → List Tool → List StageResult → Option Bool × List StageResult
  unfolding local_probe
  probe_first_local probe [] stages = (none, stages)
  probe_first_local probe (t ∷ ts) stages =
      if is_empty t.name
      then (none, stages)
      else local_probe clock (probe t).before_alive (probe t).still_alive (probe t).reply stages

  -- `_exercise_local_tools`.
  unfoldable pub exercise_local_tools :
      (Tool → LocalProbe) → List Tool → List StageResult → Exercise
  unfolding call_each local_call probe_first_local
  exercise_local_tools probe tools stages =
      let (graceful, stages') = probe_first_local probe tools stages in
      record {
        tool_outcomes = call_each (local_call dumps model) invoke 0 (take max_tools_invoked tools);
        malformed_graceful = graceful;
        security_flagged = security_flagged stages';
        stage_results =
            note clock VerificationStage.security success
              (some "container isolation active (resource limits, cap drop, egress allowlist)")
              stages';
      }

  unfoldable pub probe_first_remote :
      Bool
      → (Tool → Reply InvokeResult)
      → List Tool
      → List StageResult
      → Option Bool × List StageResult
  unfolding remote_probe
  probe_first_remote has_token probe [] stages = (none, stages)
  probe_first_remote has_token probe (t ∷ ts) stages =
      if has_token then (none, stages) else remote_probe clock (probe t) stages

  -- `_exercise_remote_tools`.
  unfoldable pub exercise_remote_tools :
      Bool → (Tool → Reply InvokeResult) → List Tool → List StageResult → Exercise
  unfolding call_each remote_call probe_first_remote invocable
  exercise_remote_tools has_token probe tools stages =
      let chosen = invocable has_token tools in
      let skipped =
        if not (is_nil tools) && is_nil chosen
        then note clock VerificationStage.tool_invocation auth_required
            (some "all tools are write-capable; skipped auto-invocation with real credentials")
            stages
        else stages in
      let (graceful, stages') = probe_first_remote has_token probe tools skipped in
      record {
        tool_outcomes = call_each (remote_call dumps model) invoke 0 chosen;
        malformed_graceful = graceful;
        security_flagged = security_flagged stages';
        stage_results = stages';
      }
