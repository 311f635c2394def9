-- ===== src/Verification/Credentials.antt =====
-- The credential store as the verifiers use it: `_credential_token_for`,
-- `_refresh_provider_credential` and `_flag_provider_reauth` of
-- platform/backend/app/verification/verifiers.py, over `get` and `update` of
-- ProviderCredentialRepository in repository.py beside it. The refresh grant over HTTP is a
-- parameter: the token document, or none where it raised. Lifetimes are in microseconds.
pub mod Usable
use mathlib.Core.Option
use discovery_application.Base.{
  ℕ, ◌+◌, String, Bool, true, false, not, ◌&&◌, ◌||◌, Option, none, some, leb, on_some, str_eq,
  if◌then◌else◌,
}
use discovery_application.Verification.Models.{McpServerRecord, Stamp, at, unreadable}
use discovery_application.Verification.Pipeline.{
  ProviderCredentialRecord, Providers, is_set, stored,
}

pub record TokenDocument : Type 0 where
  pub access_token : Option String
  pub refresh_token : Option String
  pub expires_in : Option ℕ

-- `update` of one provider's row.
unfoldable pub update_provider :
    String → (ProviderCredentialRecord → ProviderCredentialRecord) → Providers → Providers
update_provider provider change none = none
update_provider provider change (some get) =
    some (λ p. if str_eq p provider then Option.map change (get p) else get p)

abbrev pub needs_reauth : ProviderCredentialRecord → ProviderCredentialRecord
needs_reauth c = record c { status = "reauth_required" }

-- The updates after a successful grant.
unfoldable pub rotated : ℕ → TokenDocument → ProviderCredentialRecord → ProviderCredentialRecord
rotated now doc c = record c {
  access_token = doc.access_token;
  status = "active";
  refresh_token = if is_set doc.refresh_token then doc.refresh_token else c.refresh_token;
  token_expires_at =
      on_some doc.expires_in (λ lifetime. some (at (now + lifetime))) c.token_expires_at;
}

unfoldable pub token_expired : ℕ → ProviderCredentialRecord → Bool
token_expired now c = elim c.token_expires_at [ some (at expires) ↦ leb expires now | _ ↦ false ]

-- `_flag_provider_reauth`.
unfoldable pub flag_provider_reauth : McpServerRecord → Providers → Providers
unfolding update_provider
flag_provider_reauth r providers =
    on_some r.oauth_provider
      (λ provider.
        if is_set (some provider)
        then update_provider provider needs_reauth providers
        else providers)
      providers

module _ (refresh : ProviderCredentialRecord → Option TokenDocument) (now : ℕ) where
  -- `_refresh_provider_credential`: the token, and the store.
  unfoldable pub refresh_provider_credential :
      ProviderCredentialRecord → Providers → Option String × Providers
  unfolding update_provider rotated
  refresh_provider_credential c providers =
      if not (is_set c.refresh_token) || not (is_set c.token_endpoint)
      then (none, providers)
      else on_some (refresh c)
          (λ doc. (doc.access_token, update_provider c.provider (rotated now doc) providers))
          (none, providers)

  unfoldable pub token_of :
      String → ProviderCredentialRecord → Providers → Option String × Providers
  unfolding refresh_provider_credential token_expired update_provider
  token_of provider c providers =
      let (refreshed, providers') = refresh_provider_credential c providers in
      if not (token_expired now c)
      then (if is_set c.access_token then c.access_token else none, providers)
      else if is_set refreshed
      then (refreshed, providers')
      else (none, update_provider provider needs_reauth providers')

  -- `_credential_token_for`.
  unfoldable pub credential_token_for : McpServerRecord → Providers → Option String × Providers
  unfolding token_of
  credential_token_for r providers =
      on_some (stored providers r.oauth_provider)
        (λ c.
          if str_eq c.status "active"
          then on_some r.oauth_provider (λ provider. token_of provider c providers)
              (none, providers)
          else (none, providers))
        (none, providers)
