-- ===== src/Sandbox/OauthServers.antt =====
-- The authorization server of a remote server, and what is sent to it:
-- platform/backend/app/sandbox/oauth.py. `env` is the environment, `fetch` the first JSON object that
-- one of the URLs gives with status 200, and `post` the answer of a form.
pub mod Resolved
use Prim.Native.String.{◌++◌ as str_append}
use discovery_application.Base.{
  ℕ, String, Bool, true, false, not, ◌||◌, Option, none, some, List, [], ◌∷◌, ◌++◌, is_nil, on_some,
  ◌==◌, is_empty, if◌then◌else◌, lower, strip, join, decimal,
}
use discovery_application.Catalog.Identity.{strip_slash, text_or}
use discovery_application.Sandbox.Oauth.{
  OAuthFlowContext, Metadata, Origin, origin_of, default_oauth_scopes, pre_registered_client_env,
  entry_of,
}

-- A result, or OAuthFlowError with its message.
pub data Flow (A : Type 0) : Type 0 where
  ok : A → Flow A
  failed : String → Flow A

abbrev pub given : Option String → Bool
given o = not (is_empty (text_or o ""))

-- The answer of a request: its status and the fields of its JSON object that are read.
pub record TokenAnswer : Type 0 where
  pub status_code : ℕ
  pub access_token : Option String
  pub detail : String

abbrev pub Form : Type 0
Form = List (String × String)

abbrev pub or_field : String → Option String → Form
or_field key value = if given value then (key, text_or value "") ∷ [] else []

unfoldable pub exchange_form : OAuthFlowContext → String → Form
exchange_form flow code =
    (("grant_type", "authorization_code")
      ∷ ("code", code)
      ∷ ("redirect_uri", flow.redirect_uri)
      ∷ ("client_id", flow.client_id)
      ∷ ("code_verifier", flow.code_verifier)
      ∷ [])
    ++ or_field "client_secret" flow.client_secret
    ++ or_field "resource" (some flow.resource)

unfoldable pub refresh_form : String → String → Option String → Form
refresh_form refresh_token client_id client_secret =
    (("grant_type", "refresh_token")
      ∷ ("refresh_token", refresh_token)
      ∷ ("client_id", client_id)
      ∷ [])
    ++ or_field "client_secret" client_secret

-- An answer, or the message of the error that the request raised.
pub data Posted : Type 0 where
  answered : TokenAnswer → Posted
  raised : String → Posted

-- What a token request gives; `action` names it in the messages.
unfoldable pub token_of_answer : String → Posted → Flow TokenAnswer
token_of_answer action (raised message) = failed (join "" (action ∷ " failed: " ∷ message ∷ []))
token_of_answer action (answered answer) =
    if not (answer.status_code == 200)
    then failed (
        join "" (
          action
          ∷ " rejected (HTTP "
          ∷ decimal answer.status_code
          ∷ ")"
          ∷ (if is_empty answer.detail then "" else str_append " " answer.detail)
          ∷ "."
          ∷ []))
    else if given answer.access_token
    then ok answer
    else failed (str_append action " response contained no access_token.")

module _ (post : String → Form → Posted) where
  unfoldable pub exchange_code_for_token : OAuthFlowContext → String → Flow TokenAnswer
  unfolding exchange_form token_of_answer
  exchange_code_for_token flow code =
      token_of_answer "Token exchange" (post flow.token_endpoint (exchange_form flow code))

  unfoldable pub refresh_provider_token :
      String → String → String → Option String → Flow TokenAnswer
  unfolding refresh_form token_of_answer
  refresh_provider_token token_endpoint refresh_token client_id client_secret =
      token_of_answer "Token refresh"
        (post token_endpoint (refresh_form refresh_token client_id client_secret))

module _ (urlparse : String → Origin) where
  abbrev pub host_of : String → String
  host_of url = lower (text_or (urlparse url).hostname "")

  unfoldable pub issuer_host : String → Option Metadata → String
  issuer_host mcp_url metadata = host_of (text_or (on_some metadata (λ m. m.issuer) none) mcp_url)

  unfoldable pub default_scopes_for : String → Option Metadata → Option String
  default_scopes_for mcp_url metadata =
      let supported = on_some metadata (λ m. m.scopes_supported) [] in
      if not (is_nil supported)
      then some (join " " supported)
      else if is_empty (host_of mcp_url)
      then none
      else entry_of (host_of mcp_url) default_oauth_scopes

  -- The URLs of a metadata document, the one with the path first.
  unfoldable pub well_known_candidates : String → String → List String
  well_known_candidates url well_known =
      let parsed = urlparse url in
      let path = strip_slash parsed.path in
      let base = str_append (origin_of parsed) (str_append "/.well-known/" well_known) in
      if is_empty path then base ∷ [] else str_append base path ∷ base ∷ []

  module _ (env : String → Option String) where
    -- The first suffix of the host with a client in the environment.
    unfoldable pub client_among : String → List (String × String) → Option (String × Option String)
    client_among host [] = none
    client_among host ((suffix, slug) ∷ entries) =
        let rest = client_among host entries in
        let client_id = strip (text_or (env (str_append "MCP_OAUTH_CLIENT_ID_" slug)) "") in
        let secret = strip (text_or (env (str_append "MCP_OAUTH_CLIENT_SECRET_" slug)) "") in
        on_some (entry_of host ((suffix, slug) ∷ []))
          (λ _.
            if is_empty client_id
            then rest
            else some (client_id, if is_empty secret then none else some secret))
          rest

    unfoldable pub preregistered_client_for :
        String → Option Metadata → Option (String × Option String)
    unfolding client_among issuer_host
    preregistered_client_for mcp_url metadata =
        client_among (issuer_host mcp_url metadata) pre_registered_client_env

    unfoldable pub prereg_redirect_uri : String → Option Metadata → Option String
    unfolding issuer_host
    prereg_redirect_uri mcp_url metadata =
        let base = strip_slash (strip (text_or (env "MCP_OAUTH_REDIRECT_BASE_URL") "")) in
        on_some (entry_of (issuer_host mcp_url metadata) pre_registered_client_env)
          (λ _.
            if is_empty base
            then none
            else some (
                str_append base
                  "/api/items/00000000-0000-0000-0000-000000000000/test/authorize/callback"))
          none

  module _ (fetch : List String → Option Metadata) where
    unfoldable pub discover_protected_resource_metadata : String → Option Metadata
    unfolding well_known_candidates
    discover_protected_resource_metadata mcp_url =
        fetch (well_known_candidates mcp_url "oauth-protected-resource")

    unfoldable pub discover_authorization_server_metadata : String → Option Metadata
    unfolding well_known_candidates
    discover_authorization_server_metadata as_url = fetch (
        well_known_candidates as_url "oauth-authorization-server"
        ++ well_known_candidates as_url "openid-configuration")

    -- The first server that the resource names, or else the origin of the resource.
    unfoldable pub issuer_for : String → Option Metadata → String
    issuer_for mcp_url prm =
        let named =
          on_some prm (λ m. elim m.authorization_servers [ [] ↦ "" | ◌∷◌ server servers ↦ server ])
            "" in
        if is_empty named then origin_of (urlparse mcp_url) else named

    -- The document of the issuer, or else of the issuer's origin.
    unfoldable pub issuer_metadata : String → Option Metadata
    unfolding discover_authorization_server_metadata
    issuer_metadata issuer = on_some (discover_authorization_server_metadata issuer) some (
        if is_empty (urlparse issuer).path
        then none
        else discover_authorization_server_metadata (origin_of (urlparse issuer)))

    abbrev pub with_scopes : Option Metadata → Metadata → Metadata
    with_scopes none m = m
    with_scopes (some prm) m =
        if is_nil prm.scopes_supported
        then m
        else record m { scopes_supported = prm.scopes_supported }

    unfoldable pub resolve_authorization_server : String → Flow Metadata
    unfolding discover_protected_resource_metadata issuer_for issuer_metadata
    resolve_authorization_server mcp_url =
        let prm = discover_protected_resource_metadata mcp_url in
        let issuer = issuer_for mcp_url prm in
        on_some (issuer_metadata issuer)
          (λ m.
            if not (given m.authorization_endpoint) || not (given m.token_endpoint)
            then failed
                "The authorization server metadata is missing required endpoints (authorization_endpoint / token_endpoint)."
            else ok (with_scopes prm m))
          (failed (
            join "" (
              "This server's OAuth authorization metadata could not be discovered from " ∷ issuer
              ∷ ". The provider may not support dynamic client registration." ∷ [])))
