-- ===== src/Sandbox/OauthServers/Resolved.antt =====
-- What a resolved server and a token have.
use discovery_application.Base.{
  ◌≡◌, refl, subst, String, Bool, true, false, not, ◌||◌, Option, none, some, List, on_some,
  on_some_ind, if_ind, if◌then◌else◌, is_nil,
}
use discovery_application.Sandbox.Oauth.{Metadata, Origin}
use discovery_application.Sandbox.OauthServers.{
  Flow, ok, failed, given, with_scopes, issuer_for, issuer_metadata, resolve_authorization_server,
  discover_protected_resource_metadata,
}

-- Metadata with both endpoints, and with the scopes of the resource where it names any.
pub record IsUsableServer (prm : Option Metadata) (m : Metadata) : Type 0 where
  pub authorization_endpoint : given m.authorization_endpoint ≡ true
  pub token_endpoint : given m.token_endpoint ≡ true
  pub scopes :
      on_some prm
        (λ p. if is_nil p.scopes_supported then m.scopes_supported else p.scopes_supported)
        m.scopes_supported
      ≡ m.scopes_supported

abbrev Ensures : {A : Type 0} → (A → Type 0) → Flow A → Type 0
Ensures P (ok a) = P a
Ensures P (failed message) = Unit {0}

both : (a b : Bool) → (not a || not b) ≡ false → (a ≡ true) × (b ≡ true)
both true true h = (refl, refl)
both true false h = cc
both false b h = cc

with_scopes-IsUsableServer :
    (urlparse : String → Origin) (fetch : List String → Option Metadata) (prm : Option Metadata)
    (m : Metadata)
    → given m.authorization_endpoint ≡ true
    → given m.token_endpoint ≡ true
    → IsUsableServer prm (with_scopes urlparse fetch prm m)
with_scopes-IsUsableServer urlparse fetch none m a t = record {
  authorization_endpoint = a;
  token_endpoint = t;
  scopes = refl;
}
with_scopes-IsUsableServer urlparse fetch (some p) m a t =
    if_ind (IsUsableServer (some p)) (is_nil p.scopes_supported)
      (λ e. record { authorization_endpoint = a; token_endpoint = t; scopes = rw e refl })
      (λ e. record { authorization_endpoint = a; token_endpoint = t; scopes = rw e refl })

resolve-IsUsableServer :
    (urlparse : String → Origin) (fetch : List String → Option Metadata) (mcp_url : String)
    → Ensures
        (IsUsableServer (discover_protected_resource_metadata urlparse fetch mcp_url))
        (resolve_authorization_server urlparse fetch mcp_url)
unfolding resolve_authorization_server
resolve-IsUsableServer urlparse fetch mcp_url =
    let prm = discover_protected_resource_metadata urlparse fetch mcp_url in
    let P = Ensures (IsUsableServer prm) in
    on_some_ind P (issuer_metadata urlparse fetch (issuer_for urlparse fetch mcp_url prm))
      (λ m _.
        if_ind P (not (given m.authorization_endpoint) || not (given m.token_endpoint)) (λ _. tt)
          (λ e.
            let (a, t) = both (given m.authorization_endpoint) (given m.token_endpoint) e in
            with_scopes-IsUsableServer urlparse fetch prm m a t))
      (λ _. tt)

Ensures-ok : {A : Type 0} (P : A → Type 0) (m : Flow A) (a : A) → Ensures P m → m ≡ ok a → P a
Ensures-ok P (ok b) a h e = let same : b ≡ a = cc in subst P same h
Ensures-ok P (failed message) a h e = cc

-- A resolved authorization server has both endpoints, and where the protected resource names scopes,
-- they are the ones that are asked for.
pub resolve_authorization_server-IsUsableServer :
    (urlparse : String → Origin) (fetch : List String → Option Metadata) (mcp_url : String)
    (m : Metadata)
    → resolve_authorization_server urlparse fetch mcp_url ≡ ok m
    → IsUsableServer (discover_protected_resource_metadata urlparse fetch mcp_url) m
resolve_authorization_server-IsUsableServer urlparse fetch mcp_url m =
    Ensures-ok _ (resolve_authorization_server urlparse fetch mcp_url) m
      (resolve-IsUsableServer urlparse fetch mcp_url)
