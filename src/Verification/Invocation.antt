-- ===== src/Verification/Invocation.antt =====
-- One call of a tool, and what is recorded of it: `_judge_output` and the bodies of the loops in
-- `_exercise_local_tools` and `_exercise_remote_tools` of
-- platform/backend/app/verification/verifiers.py. The clients' answers are parameters.
use Prim.Native.String.{◌++◌ as str_append}
use discovery_application.Base.{
  ℕ, suc, String, Bool, true, false, Option, none, some, List, [], ◌∷◌, ◌++◌, any, length, on_some,
  str_eq, if◌then◌else◌, is_empty, take_chars, decimal,
}
use discovery_application.Verification.Models.{
  Tool, ToolOutcome, StageResult, VerificationStage, StageOutcomeKind, security_flag,
}
use discovery_application.Verification.Timeouts.{effective_timeout_s, tool_policy}
use discovery_application.Verification.Judge.{
  Json, Fields, SemanticVerdict, heuristic_judge, llm_judge,
}

abbrev pub max_tools_invoked : ℕ
max_tools_invoked = 5

-- What a call gave: its result, asyncio.TimeoutError, or another exception; both with their text.
pub data Reply (A : Type 0) : Type 0 where
  answered : A → Reply A
  timed_out raised : String → Reply A

pub record InvokeResult : Type 0 where
  pub status : String
  pub result : Json
  pub error : Option String
  pub duration_ms : ℕ
  pub auth_reason : Option String

-- The language model of the judge: its key, and the verdict made of its answer, if any.
pub record LanguageModel : Type 0 where
  pub api_key : String
  pub ask : Tool → Json → Option SemanticVerdict

pub record Exercise : Type 0 where
  pub tool_outcomes : List ToolOutcome
  pub malformed_graceful : Option Bool
  pub security_flagged : Bool
  pub stage_results : List StageResult

-- `s or fallback`.
abbrev pub or_text : Option String → String → String
or_text none fallback = fallback
or_text (some s) fallback = if is_empty s then fallback else s

abbrev pub is_security_flag : StageOutcomeKind → Bool
is_security_flag security_flag = true
is_security_flag _ = false

abbrev pub security_flagged : List StageResult → Bool
security_flagged stages = any (λ s. is_security_flag s.kind) stages

abbrev pub called : String → ToolOutcome
called name = record {
  tool_name = name;
  invoked = true;
  invocation_status = none;
  semantic_valid = none;
  semantic_reason = none;
  duration_ms = none;
  graceful_error_on_malformed = none;
  detail = none;
}

-- `except Exception as exc`.
unfoldable pub call_raised : String → String → ToolOutcome
call_raised name message = record (called name) {
  invocation_status = some "error";
  detail = some (take_chars 300 message);
}

-- `except asyncio.TimeoutError`, of local servers.
unfoldable pub call_overdue : String → ToolOutcome
call_overdue name = record (called name) {
  invocation_status = some "timeout";
  detail = some (
      str_append "timed out after "
        (str_append (decimal (effective_timeout_s (tool_policy name))) "s"));
}

-- `stages.append(StageResult(…))`.
unfoldable pub note :
    (ℕ → ℕ)
    → VerificationStage
    → StageOutcomeKind
    → Option String
    → List StageResult
    → List StageResult
note clock stage kind detail stages =
    stages
    ++ (record {
      stage = stage;
      kind = kind;
      attempt = 1;
      detail = detail;
      observed_at = clock (length stages);
    }
        ∷ [])

-- The calls of the loop; a tool without a name is passed over.
unfoldable pub call_each :
    (Tool → Reply InvokeResult → ToolOutcome)
    → (ℕ → Tool → Reply InvokeResult)
    → ℕ
    → List Tool
    → List ToolOutcome
call_each settle invoke n [] = []
call_each settle invoke n (t ∷ ts) =
    let rest = call_each settle invoke (suc n) ts in
    if is_empty t.name then rest else settle t (invoke n t) ∷ rest

module _ (dumps : Fields → String) (model : Option LanguageModel) where
  -- `_judge_output`.
  unfoldable pub judge_output : Tool → Json → SemanticVerdict
  judge_output tool output =
      on_some model (λ m. llm_judge dumps m.api_key tool.name (m.ask tool output) output)
        (heuristic_judge dumps tool.name output)

  -- The part of the loops where the call returned.
  unfoldable pub call_returned : Tool → InvokeResult → ToolOutcome
  unfolding judge_output
  call_returned tool r =
      let o = record (called tool.name) {
        invocation_status = some r.status;
        duration_ms = some r.duration_ms;
      } in
      let verdict = judge_output tool r.result in
      if str_eq r.status "success"
      then record o {
        detail = some "invoked successfully";
        semantic_valid = some verdict.valid;
        semantic_reason = some verdict.reason;
      }
      else record o {
        detail = some (take_chars 300 (or_text r.error "invocation error"));
        semantic_valid = some false;
        semantic_reason = some "tool returned an error result";
      }

  unfoldable pub local_call : Tool → Reply InvokeResult → ToolOutcome
  unfolding call_returned call_raised call_overdue
  local_call tool (answered r) = call_returned tool r
  local_call tool (timed_out message) = call_overdue tool.name
  local_call tool (raised message) = call_raised tool.name message

  unfoldable pub remote_call : Tool → Reply InvokeResult → ToolOutcome
  unfolding call_returned call_raised
  remote_call tool (answered r) = call_returned tool r
  remote_call tool (timed_out message) = call_raised tool.name message
  remote_call tool (raised message) = call_raised tool.name message
