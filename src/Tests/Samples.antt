-- ===== src/Tests/Samples.antt =====
-- Rows and attempts that the tests share.
use discovery_application.Base.{String, true, false, none, some, [], ◌∷◌}
use discovery_application.Verification.Models.{
  AuthType, Transport, ServerStatus, Confidence, McpServerRecord, VerificationDetails, ToolOutcome,
  StageResult, StageOutcomeKind, VerificationStage,
}
use discovery_application.Verification.Checks.{AttemptOutcome}

abbrev pub no_details : VerificationDetails
no_details = record {
  stages = [];
  last_score = none;
  tools = [];
  prefilter_failures = none;
  worker_error = none;
}

abbrev pub server : String → McpServerRecord
server id = record {
  server_id = id;
  name = id;
  source_url = id;
  transport = Transport.remote;
  install_cmd = none;
  endpoint_url = some "https://mcp.example.com";
  declared_tools = [];
  description = "";
  registry_name = none;
  repository_url = none;
  provider_keys = [];
  auth_required = false;
  auth_type = AuthType.no_auth;
  oauth_flow = none;
  oauth_provider = none;
  status = ServerStatus.pending;
  quality_score = 0;
  confidence = Confidence.low;
  attempts_completed = 0;
  attempts_planned = 1;
  invocation_verified = false;
  latency_p50_ms = none;
  latency_category = none;
  verified_badge = false;
  verified_via_auth = false;
  last_verified_via = none;
  last_verified_at = none;
  ttl_expires_at = none;
  verification_details = no_details;
  rejection_stage = none;
  rejection_check = none;
  first_seen_at = none;
  last_attempt_at = none;
}

abbrev pub stage : VerificationStage → StageOutcomeKind → StageResult
stage s k = record { stage = s; kind = k; attempt = 1; detail = none; observed_at = 0 }

abbrev pub call : String → ToolOutcome
call status = record {
  tool_name = "list_items";
  invoked = true;
  invocation_status = some status;
  semantic_valid = some true;
  semantic_reason = none;
  duration_ms = some 120;
  graceful_error_on_malformed = none;
  detail = none;
}

-- A run that connected and called one tool.
abbrev pub ran : String → AttemptOutcome
ran status = record {
  kind = StageOutcomeKind.success;
  detail = none;
  tools = record { name = "list_items"; description = none } ∷ [];
  connect_latency_ms = some 40;
  tool_outcomes = call status ∷ [];
  malformed_graceful = some true;
  security_flagged = false;
  stage_results =
      stage VerificationStage.handshake StageOutcomeKind.success
      ∷ stage VerificationStage.tools_list StageOutcomeKind.success
      ∷ [];
  auth_exercised = false;
}

-- A run that did not get through.
abbrev pub lost : AttemptOutcome
lost = record {
  kind = StageOutcomeKind.transport_fail;
  detail = none;
  tools = [];
  connect_latency_ms = none;
  tool_outcomes = [];
  malformed_graceful = none;
  security_flagged = false;
  stage_results = stage VerificationStage.connect StageOutcomeKind.transport_fail ∷ [];
  auth_exercised = false;
}
