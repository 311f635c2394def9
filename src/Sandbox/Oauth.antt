-- ===== src/Sandbox/Oauth.antt =====
-- The authorization of remote servers, platform/backend/app/sandbox/oauth.py: the store of flows in
-- flight, the discovery of the authorization server, the default scopes, the registered clients and
-- the exchange of a code. The time is `time.monotonic()` in seconds, read by the caller; random texts,
-- the environment, urlparse and what HTTP requests answer are parameters.
pub mod Flows
use Prim.Native.String.{◌++◌ as str_append}
use discovery_application.Base.{
  ℕ, ◌+◌, String, Bool, true, false, not, ◌&&◌, ◌||◌, Option, none, some, List, [], ◌∷◌, ◌++◌,
  find?, is_nil, on_some, ltb, ◌==◌, str_eq, is_empty, if◌then◌else◌, lower, strip, ends_with, join,
  Dict, lookup, put, pop,
}
use discovery_application.Catalog.Identity.{strip_slash, text_or}

abbrev pub flow_ttl_seconds : ℕ
flow_ttl_seconds = 600

pub record OAuthFlowContext : Type 0 where
  pub item_id : String
  pub session_id : String
  pub state : String
  pub code_verifier : String
  pub redirect_uri : String
  pub client_id : String
  pub client_secret : Option String
  pub token_endpoint : String
  pub resource : String
  pub created_at : ℕ
  pub expires_at : ℕ
  pub session_item_id : String

abbrev pub FlowStore : Type 0
FlowStore = Dict OAuthFlowContext

-- `is_expired`, where the clock shows `now`.
abbrev pub flow_expired : ℕ → OAuthFlowContext → Bool
flow_expired now flow = ltb flow.expires_at now

unfoldable pub evict_expired : ℕ → FlowStore → FlowStore
evict_expired now [] = []
evict_expired now ((state, flow) ∷ flows) =
    let rest = evict_expired now flows in
    if flow_expired now flow then rest else (state, flow) ∷ rest

unfoldable pub put_flow : ℕ → OAuthFlowContext → FlowStore → FlowStore
unfolding evict_expired
put_flow now flow flows = put flow.state flow (evict_expired now flows)

-- `take`: the flow, and the store without it.
unfoldable pub take_flow : ℕ → String → FlowStore → Option OAuthFlowContext × FlowStore
unfolding evict_expired
take_flow now state flows =
    let fresh = evict_expired now flows in
    (
      on_some (lookup state fresh) (λ flow. if flow_expired now flow then none else some flow) none,
      pop state fresh,
    )

-- The flow of `build_authorization_url`.
unfoldable pub authorization_flow :
    ℕ
    → String
    → String
    → String
    → String
    → Option String
    → String
    → String
    → String
    → String
    → Option String
    → OAuthFlowContext
authorization_flow now state verifier token_endpoint client_id client_secret redirect_uri resource
      item_id session_id session_item_id =
    record {
      item_id = item_id;
      session_id = session_id;
      state = state;
      code_verifier = verifier;
      redirect_uri = redirect_uri;
      client_id = client_id;
      client_secret = client_secret;
      token_endpoint = token_endpoint;
      resource = resource;
      created_at = now;
      expires_at = now + flow_ttl_seconds;
      session_item_id = text_or session_item_id item_id;
    }

-- A parsed URL.
pub record Origin : Type 0 where
  pub scheme : String
  pub netloc : String
  pub path : String
  pub hostname : Option String

abbrev pub origin_of : Origin → String
origin_of parsed = str_append parsed.scheme (str_append "://" parsed.netloc)

-- `host == suffix or host.endswith("." + suffix)`.
abbrev pub under_suffix : String → String → Bool
under_suffix host suffix = str_eq host suffix || ends_with host (str_append "." suffix)

abbrev pub google_scopes : String
google_scopes =
    "openid email profile https://www.googleapis.com/auth/drive https://www.googleapis.com/auth/calendar https://www.googleapis.com/auth/gmail.modify https://www.googleapis.com/auth/documents https://www.googleapis.com/auth/spreadsheets https://www.googleapis.com/auth/presentations https://www.googleapis.com/auth/chat.spaces https://www.googleapis.com/auth/tasks"

abbrev pub microsoft_scopes : String
microsoft_scopes = "openid email profile offline_access https://graph.microsoft.com/.default"

abbrev pub default_oauth_scopes : List (String × String)
default_oauth_scopes =
    ("google.com", google_scopes)
    ∷ ("googleapis.com", google_scopes)
    ∷ ("microsoftonline.com", microsoft_scopes)
    ∷ ("microsoft.com", microsoft_scopes)
    ∷ ("cloud.microsoft", microsoft_scopes)
    ∷ ("azure.com", microsoft_scopes)
    ∷ ("github.com", "repo read:org read:user")
    ∷ ("gitlab.com", "api read_user")
    ∷ ("slack.com", "identity.basic identity.email")
    ∷ []

abbrev pub pre_registered_client_env : List (String × String)
pre_registered_client_env =
    ("slack.com", "SLACK")
    ∷ ("google.com", "GOOGLE")
    ∷ ("googleapis.com", "GOOGLE")
    ∷ ("github.com", "GITHUB")
    ∷ ("gitlab.com", "GITLAB")
    ∷ ("microsoftonline.com", "ENTRA")
    ∷ ("microsoft.com", "ENTRA")
    ∷ ("cloud.microsoft", "ENTRA")
    ∷ ("azure.com", "ENTRA")
    ∷ ("linear.app", "LINEAR")
    ∷ ("notion.com", "NOTION")
    ∷ ("atlassian.com", "ATLASSIAN")
    ∷ ("sentry.dev", "SENTRY")
    ∷ ("vercel.com", "VERCEL")
    ∷ ("supabase.com", "SUPABASE")
    ∷ ("stripe.com", "STRIPE")
    ∷ ("huggingface.co", "HUGGINGFACE")
    ∷ []

-- The fields of a metadata document that are read.
pub record Metadata : Type 0 where
  pub issuer : Option String
  pub authorization_endpoint : Option String
  pub token_endpoint : Option String
  pub scopes_supported : List String
  pub authorization_servers : List String

abbrev pub entry_of : String → List (String × String) → Option String
entry_of host entries =
    on_some (find? (λ (entry : String × String). under_suffix host entry.0) entries)
      (λ entry. some entry.1) none
