-- ===== src/Verification/Remote.antt =====
-- A run on a remote server, `_verify_remote`, `_handle_remote_auth` and `_refine_auth_metadata` of
-- platform/backend/app/verification/verifiers.py. What the network answers is a parameter: to the
-- two connects and the two uses of the credential store, to the calls, and to the discovery of the authorization server, which gives the
-- grant types that it supports, or none where it raised. Each step takes the credential store as
-- the step before left it.
use Prim.Native.String.{◌++◌ as str_append}
use discovery_application.Base.{
  ℕ, String, Bool, true, false, not, ◌&&◌, ◌||◌, Option, none, some, List, [], any, is_nil, is_some,
  str_eq, on_some, if◌then◌else◌, lower, contains,
}
use discovery_application.Verification.Models.{
  Tool, AuthType, OauthFlow, StageResult, VerificationStage, StageOutcomeKind, McpServerRecord,
  success, auth_required, protocol_fail,
}
use discovery_application.Verification.Checks.{AttemptOutcome, classify_remote_failure}
use discovery_application.Verification.Pipeline.{ProviderCredentialRecord, Providers}
use discovery_application.Verification.Credentials.{
  TokenDocument, credential_token_for, flag_provider_reauth,
}
use discovery_application.Verification.Auth.{classify_auth}
use discovery_application.Verification.Judge.{Fields}
use discovery_application.Verification.Timeouts.{text_or_empty}
use discovery_application.Verification.Invocation.{
  Reply, answered, timed_out, raised, InvokeResult, LanguageModel, note,
}
use discovery_application.Verification.Exercise.{exercise_remote_tools}
use discovery_application.Verification.Local.{
  ConnectResult, first_text, is_reason, failure, exercised_outcome, greeted,
}

pub record RemoteRun : Type 0 where
  pub connect : Option String → Reply ConnectResult
  pub reconnect : Option String → Reply ConnectResult
  pub connect_latency_ms : ℕ
  pub invoke : Option String → ℕ → Tool → Reply InvokeResult
  pub probe : Tool → Reply InvokeResult
  pub grant_types : String → Option (List String)
  pub refresh : ProviderCredentialRecord → Option TokenDocument
  pub now : ℕ
  pub refresh_again : ProviderCredentialRecord → Option TokenDocument
  pub later : ℕ

-- An exception that leaves the run, or the record with its refined fields, and the outcome; with
-- the credential store.
pub data Ran : Type 0 where
  stopped : String → Providers → Ran
  ended : McpServerRecord → AttemptOutcome → Providers → Ran

abbrev flow_name : Option OauthFlow → String
flow_name none = "None"
flow_name (some OauthFlow.authorization_code) = "authorization_code"
flow_name (some OauthFlow.client_credentials) = "client_credentials"

abbrev auth_name : AuthType → String
auth_name AuthType.no_auth = "none"
auth_name AuthType.api_key = "api_key"
auth_name AuthType.oauth2 = "oauth2"
auth_name AuthType.unknown = "unknown"

abbrev is_probed : AuthType → Bool
is_probed AuthType.api_key = false
is_probed _ = true

abbrev is_no_auth : AuthType → Bool
is_no_auth AuthType.no_auth = true
is_no_auth _ = false

-- The first words of a rejected scope.
abbrev mentions_scope : String → Bool
mentions_scope s = contains s "scope" || contains s "restricted" || contains s "insufficient"

unfoldable pub scope_rejected : ConnectResult → Bool
scope_rejected retry =
    mentions_scope (lower (text_or_empty (first_text retry.user_message retry.error)))

unfoldable pub asks_for_credentials : ConnectResult → Bool
asks_for_credentials c = c.auth_required || is_reason "unauthorized" c.auth_reason

unfoldable pub sees_nothing : Option String → ConnectResult → Bool
sees_nothing token c = is_some token && is_nil c.tools

-- The stage of a first connect that was answered with a demand for credentials.
abbrev pub asked : (ℕ → ℕ) → ConnectResult → List StageResult
asked clock c =
    note clock VerificationStage.connect auth_required
      (first_text c.user_message (some "server requires credentials")) []

-- `_refine_auth_metadata`.
unfoldable pub refine_auth_metadata :
    (String → Option (List String)) → McpServerRecord → AuthType × Option OauthFlow × Option String
unfolding classify_auth
refine_auth_metadata grant_types r =
    let found = classify_auth (some r.description) [] false in
    let fallback =
      if is_no_auth r.auth_type
      then if found.auth_required
        then (found.auth_type, found.oauth_flow, found.oauth_provider)
        else (AuthType.unknown, none, r.oauth_provider)
      else (r.auth_type, r.oauth_flow, r.oauth_provider) in
    if is_probed r.auth_type
    then on_some (grant_types (text_or_empty r.endpoint_url))
        (λ grants. (
          AuthType.oauth2,
          some (
              if any (λ g. str_eq g "client_credentials") grants
              then OauthFlow.client_credentials
              else OauthFlow.authorization_code),
          r.oauth_provider,
        ))
        fallback
    else fallback

module _ (clock : ℕ → ℕ) (dumps : Fields → String) (model : Option LanguageModel)
    (run : RemoteRun) where
  -- The stages and calls of a server that answered the handshake with its tools.
  unfoldable pub exercise_connected :
      Option String → Bool → String → ConnectResult → List StageResult → AttemptOutcome
  unfolding note exercise_remote_tools
  exercise_connected token auth_exercised greeting c stages =
      exercised_outcome c.tools run.connect_latency_ms auth_exercised (
        exercise_remote_tools clock dumps model (run.invoke token) (is_some token) run.probe c.tools
          (greeted clock greeting c stages))

  -- With a token: one more connect.
  unfoldable pub retry_with_token :
      McpServerRecord → String → ConnectResult → List StageResult → Providers → Ran
  unfolding note exercise_connected flag_provider_reauth
  retry_with_token r token retry stages providers =
      let latency = some run.connect_latency_ms in
      if retry.connected
      then ended r
          (exercise_connected (some token) true "initialized with auth: " retry (
            note clock VerificationStage.connect success
              (some "connected using stored provider credential") stages))
          providers
      else if scope_rejected retry
      then ended r
          (failure protocol_fail (some "scope_not_granted") latency (
            note clock VerificationStage.connect StageOutcomeKind.malformed
              (some "credential rejected: scopes not granted for this server") stages))
          providers
      else ended r
          (failure auth_required (some "stored credential rejected; provider reauth required")
            latency stages)
          (flag_provider_reauth r providers)

  -- Without: only the structure of the server is known.
  unfoldable pub structural_only : McpServerRecord → List StageResult → Providers → Ran
  unfolding note refine_auth_metadata
  structural_only r stages providers =
      let (auth_type, oauth_flow, oauth_provider) = refine_auth_metadata run.grant_types r in
      ended
        (record r {
          auth_required = true;
          auth_type = auth_type;
          oauth_flow = oauth_flow;
          oauth_provider = oauth_provider;
        })
        (failure auth_required (some "no credentials available") (some run.connect_latency_ms) (
          note clock VerificationStage.connect auth_required
            (some (
              str_append "structural-only verification; auth_type="
                (str_append (auth_name auth_type) (str_append ", flow=" (flow_name oauth_flow)))))
            stages))
        providers

  -- `_handle_remote_auth`.
  unfoldable pub handle_remote_auth : McpServerRecord → List StageResult → Providers → Ran
  unfolding retry_with_token structural_only credential_token_for
  handle_remote_auth r stages providers =
      let (token, providers') = credential_token_for run.refresh_again run.later r providers in
      on_some token
        (λ t. elim (run.reconnect (some t)) [
          | answered retry ↦ retry_with_token r t retry stages providers'
          | timed_out message ↦ stopped message providers'
          | raised message ↦ stopped message providers'
        ])
        (structural_only r stages providers')

  -- After the first connect.
  unfoldable pub on_answer : McpServerRecord → Option String → ConnectResult → Providers → Ran
  unfolding handle_remote_auth note exercise_connected classify_remote_failure
  on_answer r token c providers =
      let latency = some run.connect_latency_ms in
      let kind = classify_remote_failure c.auth_reason in
      if asks_for_credentials c
      then handle_remote_auth r (asked clock c) providers
      else if not c.connected
      then ended r
          (failure kind c.error latency
            (note clock VerificationStage.connect kind (first_text c.user_message c.error) []))
          providers
      else if sees_nothing token c
      then ended r
          (failure auth_required (some "connected but no tools visible; possible scope restriction")
            latency (greeted clock "initialized: " c []))
          providers
      else ended r (exercise_connected token (is_some token) "initialized: " c []) providers

  -- `_verify_remote`.
  unfoldable pub verify_remote : McpServerRecord → Providers → Ran
  unfolding on_answer credential_token_for
  verify_remote r providers =
      let (token, providers') = credential_token_for run.refresh run.now r providers in
      elim (run.connect token) [
        | answered c ↦ on_answer r token c providers'
        | timed_out message ↦ stopped message providers'
        | raised message ↦ stopped message providers'
      ]
