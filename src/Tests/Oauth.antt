-- ===== src/Tests/Oauth.antt =====
-- Flows in flight, the discovery of a server, and the classification of items.
use discovery_application.Base.{
  ◌≤◌, ◌≡◌, refl, arith, String, true, Option, none, some, List, [], ◌∷◌, contains, strip, lower,
  ends_with, take_chars,
}
use discovery_application.Verification.Judge.{Json, object, field, no_fields}
use discovery_application.Sandbox.Oauth.{
  OAuthFlowContext, Metadata, Origin, put_flow, take_flow, authorization_flow,
}
use discovery_application.Sandbox.Oauth.Flows
use discovery_application.Sandbox.Oauth.Flows.{FlowCall, putting, taking, after_calls}
use discovery_application.Sandbox.OauthServers.{
  exchange_code_for_token, default_scopes_for, discover_protected_resource_metadata,
  resolve_authorization_server,
}
use discovery_application.Sandbox.OauthServers.Resolved
use discovery_application.Sandbox.OauthServers.Resolved.{IsUsableServer}
use discovery_application.Sandbox.AuthSignals.{extract_inband_auth_error}
use discovery_application.Sandbox.Classifier.{
  ConfigFiles, RemoteEntry, Mode, is_local_host, build_remote_candidates, package_candidates,
  local_packages, github_source_hint,
}
use discovery_application.Sandbox.Readme.{ReadmeUrl, classify_tool}
use discovery_application.Sandbox.Readme.Dialled
use discovery_application.Sandbox.Readme.Dialled.{IsSafe}
use discovery_application.Catalog.Identity.{strip_slash}
use discovery_application.Catalog.Planner.{QueryPlan, plan_query}
use discovery_application.Catalog.Planner.Clean
use discovery_application.Catalog.Planner.Clean.{IsPlan}

oauth_test : Unit {0}
unfolding put_flow take_flow authorization_flow resolve_authorization_server default_scopes_for
    exchange_code_for_token classify_tool is_local_host build_remote_candidates package_candidates
    local_packages github_source_hint extract_inband_auth_error plan_query contains strip lower
    ends_with strip_slash take_chars
oauth_test = tt

abbrev flow : String → OAuthFlowContext
flow state = record {
  item_id = "i";
  session_id = "s";
  state = state;
  code_verifier = "v";
  redirect_uri = "r";
  client_id = "c";
  client_secret = none;
  token_endpoint = "t";
  resource = "m";
  created_at = 3;
  expires_at = 603;
  session_item_id = "i";
}

abbrev earlier : List FlowCall
earlier = putting 3 (flow "a") ∷ putting 4 (flow "b") ∷ taking 5 "b" ∷ []

take_flow-own_example : ((flow "a").state ≡ "a") × (9 ≤ (flow "a").expires_at)
unfolding oauth_test
take_flow-own_example = Flows.take_flow-own earlier 9 "a" (flow "a") refl

take_flow-put_example :
    ((take_flow 9 "a" (put_flow 3 (flow "a") [])).0 ≡ some (flow "a"))
    × ((take_flow 10 "a" (take_flow 9 "a" (put_flow 3 (flow "a") [])).1).0 ≡ none)
take_flow-put_example = Flows.take_flow-put [] 3 9 10 (flow "a") (omega arith)

late : (take_flow 604 "a" (put_flow 3 (flow "a") [])).0 ≡ none
unfolding oauth_test
late = refl

abbrev parsed : String → Origin
parsed url = record { scheme = "https"; netloc = url; path = ""; hostname = some url }

abbrev described : Metadata
described = record {
  issuer = none;
  authorization_endpoint = some "https://a/authorize";
  token_endpoint = some "https://a/token";
  scopes_supported = "read" ∷ [];
  authorization_servers = "https://a" ∷ [];
}

abbrev fetched : List String → Option Metadata
fetched urls = some described

resolve_authorization_server-IsUsableServer_example :
    IsUsableServer (discover_protected_resource_metadata parsed fetched "https://m") described
unfolding oauth_test
resolve_authorization_server-IsUsableServer_example =
    Resolved.resolve_authorization_server-IsUsableServer parsed fetched "https://m" described refl

scopes :
    (default_scopes_for parsed "mcp.slack.com" none ≡ some "identity.basic identity.email")
    × (default_scopes_for parsed "notslack.com" none ≡ none)
unfolding oauth_test
scopes = (refl, refl)

abbrev no_json : String → Option Json
no_json s = none

signals :
    (extract_inband_auth_error no_json 7 (object (field "error" (Json.text "not_authed") no_fields))
      ≡ some "not_authed")
    × (extract_inband_auth_error no_json 7 (Json.text "lists the api keys") ≡ none)
unfolding oauth_test
signals = (refl, refl)

abbrev host : String → Option (Option String)
host url = some (some url)

abbrev no_urls : String → List ReadmeUrl
no_urls readme = []

abbrev no_package : String → Option String
no_package readme = none

abbrev entry : String → RemoteEntry
entry url = record { url = some url; type = some "sse"; headers = [] }

abbrev configured : ConfigFiles
configured = record {
  remotes = some (entry "localhost" ∷ entry "mcp.example" ∷ []);
  packages = none;
  github = none;
  readme = none;
}

classified : classify_tool host no_urls no_package no_package configured ≡ record {
  testable = true;
  mode = Mode.remote (record { type = "sse"; url = "mcp.example"; auth_header = none } ∷ []);
}
unfolding oauth_test
classified = refl

classify_tool-IsSafe_example :
    IsSafe host
      (classify_tool host no_urls no_package no_package configured).mode
      (classify_tool host no_urls no_package no_package configured).testable
classify_tool-IsSafe_example =
    Dialled.classify_tool-IsSafe host no_urls no_package no_package configured

abbrev silent : String → Option QueryPlan
silent query = none

plan_query_total_example :
    (plan : QueryPlan) × (plan_query "" silent "a slack tool" none ≡ some plan) × IsPlan none plan
unfolding oauth_test
plan_query_total_example = Clean.plan_query_total "" silent "a slack tool" none refl
