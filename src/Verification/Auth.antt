-- ===== src/Verification/Auth.antt =====
-- What the text of a candidate tells of its authentication: `classify_auth` of
-- platform/backend/app/verification/ingestion.py.
use discovery_application.Base.{
  String, Bool, true, false, ◌||◌, Option, none, some, List, [], ◌∷◌, any, find?, is_some,
  if◌then◌else◌, lower, contains,
}
use mathlib.Core.Option
use discovery_application.Verification.Models.{AuthType, OauthFlow}
use discovery_application.Verification.Timeouts.{contains_one, text_or_empty}

abbrev pub auth_markers : List String
auth_markers = "api_key" ∷ "apikey" ∷ "api-key" ∷ "token" ∷ "secret" ∷ "credential" ∷ []

abbrev pub oauth_provider_hints : List (String × List String)
oauth_provider_hints =
    (
      "google",
      "google" ∷ "gmail" ∷ "google drive" ∷ "google calendar" ∷ "youtube" ∷ "bigquery" ∷ [],
    )
    ∷ ("github", "github" ∷ [])
    ∷ ("notion", "notion" ∷ [])
    ∷ ("slack", "slack" ∷ [])
    ∷ []

pub record AuthMetadata : Type 0 where
  pub auth_required : Bool
  pub auth_type : AuthType
  pub oauth_flow : Option OauthFlow
  pub oauth_provider : Option String

abbrev names_client_credentials : String → Bool
names_client_credentials s = contains s "client_credentials" || contains s "client credentials"

-- The first provider that the text hints at.
unfoldable pub provider_of : String → Option String
provider_of haystack =
    Option.map (λ entry. entry.0)
      (find? (λ (entry : String × List String). contains_one entry.1 haystack) oauth_provider_hints)

unfoldable pub classify_auth : Option String → List String → Bool → AuthMetadata
unfolding provider_of
classify_auth text env_names oauth_mentions =
    let haystack = lower (text_or_empty text) in
    let env_hit = any (λ name. contains_one auth_markers (lower name)) env_names in
    let text_hit = contains_one auth_markers haystack in
    let provider = provider_of haystack in
    if oauth_mentions || contains haystack "oauth" || names_client_credentials haystack
    then record {
      auth_required = true;
      auth_type = AuthType.oauth2;
      oauth_flow = some (
          if names_client_credentials haystack
          then OauthFlow.client_credentials
          else OauthFlow.authorization_code);
      oauth_provider = provider;
    }
    else if env_hit || text_hit
    then record {
      auth_required = true;
      auth_type = AuthType.api_key;
      oauth_flow = none;
      oauth_provider = provider;
    }
    else if is_some provider
    then record {
      auth_required = true;
      auth_type = AuthType.oauth2;
      oauth_flow = some OauthFlow.authorization_code;
      oauth_provider = provider;
    }
    else record {
      auth_required = false;
      auth_type = AuthType.no_auth;
      oauth_flow = none;
      oauth_provider = none;
    }
