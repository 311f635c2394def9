-- ===== src/Verification/Models.antt =====
-- The records of platform/backend/app/verification/models.py. A time is a number of microseconds;
-- an identifier is its text. The free-form `data` of a stage and the JSON schemas of a tool are
-- left out, and `verification_details` has a field for each key that the code writes.
use discovery_application.Base.{ℕ, String, Bool, true, false, Option, List, any, ◌==◌}

pub data Transport : Type 0 where
  local remote : Transport

pub data AuthType : Type 0 where
  no_auth api_key oauth2 unknown : AuthType

pub data OauthFlow : Type 0 where
  authorization_code client_credentials : OauthFlow

pub data ServerStatus : Type 0 where
  pending malformed verified review rejected unverifiable retry_pending : ServerStatus
  partial_verified oauth_pending_consent reauth_required scope_not_granted : ServerStatus

pub data Confidence : Type 0 where
  low medium high : Confidence

pub data LatencyCategory : Type 0 where
  fast moderate slow : LatencyCategory

pub data VerificationStage : Type 0 where
  ingestion prefilter install connect handshake tools_list : VerificationStage
  tool_invocation malformed_input security semantic : VerificationStage

pub data StageOutcomeKind : Type 0 where
  success transport_fail auth_required protocol_fail timeout : StageOutcomeKind
  malformed security_flag : StageOutcomeKind

-- Membership of a status in a list of statuses.
abbrev pub status_index : ServerStatus → ℕ
status_index ServerStatus.pending = 0
status_index ServerStatus.malformed = 1
status_index ServerStatus.verified = 2
status_index ServerStatus.review = 3
status_index ServerStatus.rejected = 4
status_index ServerStatus.unverifiable = 5
status_index ServerStatus.retry_pending = 6
status_index ServerStatus.partial_verified = 7
status_index ServerStatus.oauth_pending_consent = 8
status_index ServerStatus.reauth_required = 9
status_index ServerStatus.scope_not_granted = 10

abbrev pub status_in : List ServerStatus → ServerStatus → Bool
status_in statuses status = any (λ s. status_index s == status_index status) statuses

-- The tests `x is T.C` and `x == T.C`.
abbrev pub is_local : Transport → Bool
is_local local = true
is_local remote = false

abbrev pub is_high : Confidence → Bool
is_high high = true
is_high _ = false

abbrev pub is_low : Confidence → Bool
is_low low = true
is_low _ = false

abbrev pub is_verified : ServerStatus → Bool
is_verified ServerStatus.verified = true
is_verified _ = false

abbrev pub is_review : ServerStatus → Bool
is_review ServerStatus.review = true
is_review _ = false

abbrev pub is_pending : ServerStatus → Bool
is_pending ServerStatus.pending = true
is_pending _ = false

abbrev pub is_retry_pending : ServerStatus → Bool
is_retry_pending ServerStatus.retry_pending = true
is_retry_pending _ = false

abbrev pub is_success : StageOutcomeKind → Bool
is_success success = true
is_success _ = false

abbrev pub is_auth_required : StageOutcomeKind → Bool
is_auth_required auth_required = true
is_auth_required _ = false

abbrev pub is_malformed : StageOutcomeKind → Bool
is_malformed StageOutcomeKind.malformed = true
is_malformed _ = false

-- `kind in (TRANSPORT_FAIL, TIMEOUT)`.
abbrev pub is_retryable : StageOutcomeKind → Bool
is_retryable transport_fail = true
is_retryable timeout = true
is_retryable _ = false

-- A parsed time, or a text that `datetime.fromisoformat` refuses.
pub data Stamp : Type 0 where
  at : ℕ → Stamp
  unreadable : Stamp

pub record Tool : Type 0 where
  pub name : String
  pub description : Option String

pub record ToolOutcome : Type 0 where
  pub tool_name : String
  pub invoked : Bool
  pub invocation_status : Option String
  pub semantic_valid : Option Bool
  pub semantic_reason : Option String
  pub duration_ms : Option ℕ
  pub graceful_error_on_malformed : Option Bool
  pub detail : Option String

pub record StageResult : Type 0 where
  pub stage : VerificationStage
  pub kind : StageOutcomeKind
  pub attempt : ℕ
  pub detail : Option String
  pub observed_at : ℕ

-- The scoring engine's parts, in hundredths; the two penalties are amounts that are deducted.
pub record Breakdown : Type 0 where
  pub install_connect : Option ℕ
  pub handshake_valid : Option ℕ
  pub tools_list_schema : Option ℕ
  pub tool_invocation : Option ℕ
  pub semantic_validity : Option ℕ
  pub no_crash_malformed_input : Option ℕ
  pub latency_penalty : Option ℕ
  pub security_penalty : Option ℕ

pub record LastScore : Type 0 where
  pub score : ℕ
  pub confidence : Confidence
  pub breakdown : Breakdown
  pub attempt : ℕ

pub record VerificationDetails : Type 0 where
  pub stages : List StageResult
  pub last_score : Option LastScore
  pub tools : List ToolOutcome
  pub prefilter_failures : Option (List String)
  pub worker_error : Option String

pub record McpServerRecord : Type 0 where
  pub server_id : String
  pub name : String
  pub source_url : String
  pub transport : Transport
  pub install_cmd : Option String
  pub endpoint_url : Option String
  pub declared_tools : List Tool
  pub description : String
  pub registry_name : Option String
  pub repository_url : Option String
  pub provider_keys : List String
  pub auth_required : Bool
  pub auth_type : AuthType
  pub oauth_flow : Option OauthFlow
  pub oauth_provider : Option String
  pub status : ServerStatus
  pub quality_score : ℕ
  pub confidence : Confidence
  pub attempts_completed : ℕ
  pub attempts_planned : ℕ
  pub invocation_verified : Bool
  pub latency_p50_ms : Option ℕ
  pub latency_category : Option LatencyCategory
  pub verified_badge : Bool
  pub verified_via_auth : Bool
  pub last_verified_via : Option String
  pub last_verified_at : Option ℕ
  pub ttl_expires_at : Option ℕ
  pub verification_details : VerificationDetails
  pub rejection_stage : Option VerificationStage
  pub rejection_check : Option String
  pub first_seen_at : Option ℕ
  pub last_attempt_at : Option Stamp

pub record VerificationDecisionRecord : Type 0 where
  pub server_id : String
  pub transport : Transport
  pub stage : Option VerificationStage
  pub check : Option String
  pub reason : Option String
  pub quality_score : ℕ
  pub confidence : Confidence
  pub resulting_status : ServerStatus
