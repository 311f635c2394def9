-- ===== src/Verification/UserTest.antt =====
-- How a successful test by a user is written to the server table: `record_user_verified_success`
-- of platform/backend/app/verification/bridge.py, where the table can be reached. `new_id` is the
-- identifier that a new row gets.
pub mod Badge
use mathlib.Core.Option
use text.Mathlib.Text.{starts_with}
use Prim.Native.String.{◌++◌ as str_append}
use discovery_application.Base.{
  ℕ, ◌+◌, ◌*◌, max, String, Bool, true, false, not, ◌&&◌, ◌||◌, Option, none, some, List, [], ◌∷◌,
  ◌++◌, find?, is_nil, is_some, on_some, str_eq, if◌then◌else◌, contains,
}
use discovery_application.Verification.Models.{
  McpServerRecord, Transport, AuthType, ServerStatus, high, Tool, VerificationDetails,
}
use discovery_application.Verification.Timeouts.{text_or_empty}
use discovery_application.Verification.Scoring.{ttl_days_for}
use discovery_application.Verification.Pipeline.{is_set, microseconds_per_day}
use discovery_application.Verification.Registry.{
  Engine, Rows, get_by_registry_name, get_by_source_url, list_status, create, update,
}

-- The fields of the tested item that are read.
pub record TestedItem : Type 0 where
  pub item_id : String
  pub name : String
  pub description : String
  pub source_url : Option String
  pub is_mcp_registry : Bool
  pub source_id : Option String
  pub tool_server_id : Option String

unfoldable pub registry_names : TestedItem → List String
registry_names item =
    (if item.is_mcp_registry && is_set item.source_id
      then text_or_empty item.source_id ∷ []
      else [])
    ++ (if is_set item.tool_server_id && contains (text_or_empty item.tool_server_id) "/"
        then text_or_empty item.tool_server_id ∷ []
        else [])

abbrev looks_like_http : String → Bool
looks_like_http url = starts_with url "http://" || starts_with url "https://"

abbrev pub all_statuses : List ServerStatus
all_statuses =
    ServerStatus.pending ∷ ServerStatus.malformed ∷ ServerStatus.verified ∷ ServerStatus.review
    ∷ ServerStatus.rejected ∷ ServerStatus.unverifiable ∷ ServerStatus.retry_pending
    ∷ ServerStatus.partial_verified ∷ ServerStatus.oauth_pending_consent
    ∷ ServerStatus.reauth_required ∷ ServerStatus.scope_not_granted ∷ []

abbrev pub same_identity : String → Option String → Bool
same_identity identity none = false
same_identity identity (some other) = str_eq other identity

-- The `updates` of a success.
unfoldable pub success_of_test :
    Bool → List Tool → Transport → Option McpServerRecord → ℕ → McpServerRecord → McpServerRecord
success_of_test via_auth tools transport existing now row =
    let score = on_some existing (λ r. r.quality_score) 0 in
    record row {
      status = ServerStatus.verified;
      verified_badge = true;
      verified_via_auth = via_auth;
      last_verified_via = some "user_test";
      invocation_verified = true;
      quality_score = max score 90;
      confidence = high;
      attempts_completed = 1;
      attempts_planned = 1;
      last_verified_at = some now;
      ttl_expires_at = some (now + ttl_days_for transport * microseconds_per_day);
      declared_tools = if is_nil tools then row.declared_tools else tools;
    }

abbrev no_details : VerificationDetails
no_details = record {
  stages = [];
  last_score = none;
  tools = [];
  prefilter_failures = none;
  worker_error = none;
}

abbrev pub absent_if_empty : String → Option String
absent_if_empty s = if str_eq s "" then none else some s

-- The record of a server that the table did not have.
unfoldable pub new_record : String → TestedItem → Bool → List Tool → Transport → ℕ → McpServerRecord
new_record new_id item via_auth tools transport now =
    let source_url = text_or_empty item.source_url in
    record {
      server_id = new_id;
      name = item.name;
      source_url =
          if str_eq source_url "" then str_append "user-test:" item.item_id else source_url;
      transport = transport;
      install_cmd = none;
      endpoint_url = absent_if_empty source_url;
      declared_tools = tools;
      description = item.description;
      registry_name = elim (registry_names item) [ [] ↦ none | ◌∷◌ name names ↦ some name ];
      repository_url = absent_if_empty source_url;
      provider_keys = [];
      auth_required = via_auth;
      auth_type = AuthType.no_auth;
      oauth_flow = none;
      oauth_provider = none;
      status = ServerStatus.verified;
      quality_score = 90;
      confidence = high;
      attempts_completed = 0;
      attempts_planned = 1;
      invocation_verified = true;
      latency_p50_ms = none;
      latency_category = none;
      verified_badge = true;
      verified_via_auth = via_auth;
      last_verified_via = some "user_test";
      last_verified_at = some now;
      ttl_expires_at = some (now + ttl_days_for transport * microseconds_per_day);
      verification_details = no_details;
      rejection_stage = none;
      rejection_check = none;
      first_seen_at = none;
      last_attempt_at = none;
    }

module _ (db : Engine McpServerRecord) (repo_identity : Option String → Option String) where
  -- The first row under one of the names.
  unfoldable pub first_named : List String → Rows → Option McpServerRecord
  first_named [] rows = none
  first_named (name ∷ names) rows =
      let rest = first_named names rows in on_some (get_by_registry_name db name rows) some rest

  -- The row that the item belongs to, by name, by URL, or by the identity of its repository.
  unfoldable pub existing_row : TestedItem → Rows → Option McpServerRecord
  unfolding first_named registry_names
  existing_row item rows =
      let source_url = text_or_empty item.source_url in
      let by_url = if str_eq source_url "" then none else get_by_source_url db source_url rows in
      let by_identity =
        on_some (repo_identity (absent_if_empty source_url))
          (λ identity.
            find? (λ r. same_identity identity (repo_identity r.repository_url))
              (list_status db all_statuses 500 rows))
          none in
      on_some (first_named (registry_names item) rows) some (on_some by_url some by_identity)

  unfoldable pub transport_of_test : TestedItem → Option McpServerRecord → Transport
  transport_of_test item existing =
      let source_url = text_or_empty item.source_url in
      on_some existing (λ r. r.transport)
        (if not (str_eq source_url "")
            && looks_like_http source_url
            && not (is_some (repo_identity (absent_if_empty source_url)))
          then Transport.remote
          else Transport.local)

  -- `_record_user_verified_success_inner`: the table after it.
  unfoldable pub record_user_verified_success :
      String → TestedItem → Bool → List Tool → ℕ → Rows → Rows
  unfolding existing_row success_of_test
  record_user_verified_success new_id item via_auth tools now rows =
      let existing = existing_row item rows in
      let transport = transport_of_test item existing in
      on_some existing
        (λ r. update r.server_id (success_of_test via_auth tools transport existing now) rows)
        (let (persisted, rows') =
            create db (new_record new_id item via_auth tools transport now) rows in
          update persisted.server_id (success_of_test via_auth tools transport none now) rows')
