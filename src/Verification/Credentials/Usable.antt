-- ===== src/Verification/Credentials/Usable.antt =====
-- Which token a run may use.
use discovery_application.Base.{
  arith, ℕ, ◌≡◌, ◌⊎◌, inl, inr, String, true, false, not, ◌||◌, Option, some, on_some_ind, if_ind,
  str_eq, Bool-cases, Option-cases,
}
use discovery_application.Verification.Models.{McpServerRecord}
use discovery_application.Verification.Pipeline.{
  ProviderCredentialRecord, Providers, is_set, stored,
}
use discovery_application.Verification.Credentials.{
  TokenDocument, token_expired, refresh_provider_credential, token_of, credential_token_for,
}

module _ (refresh : ProviderCredentialRecord → Option TokenDocument) (now : ℕ) where
  -- A token of an active credential: the stored one, which has not expired, or the one that its
  -- refresh token bought.
  pub IsUsable : McpServerRecord → Providers → String → Type 0
  IsUsable r providers token =
      (c : ProviderCredentialRecord) × (stored providers r.oauth_provider ≡ some c)
      × (str_eq c.status "active" ≡ true)
      × (((token_expired now c ≡ false) × (c.access_token ≡ some token))
          ⊎ ((is_set c.refresh_token ≡ true)
              × ((doc : TokenDocument) × (refresh c ≡ some doc) × (doc.access_token ≡ some token))))

  -- What is known of a token and its store.
  abbrev Granted : ProviderCredentialRecord → Option String → Type 0
  Granted c found =
      (token : String)
      → found ≡ some token
      → (is_set c.refresh_token ≡ true)
        × ((doc : TokenDocument) × (refresh c ≡ some doc) × (doc.access_token ≡ some token))

  refresh-Granted :
      (c : ProviderCredentialRecord) (providers : Providers)
      → Granted c (refresh_provider_credential refresh now c providers).0
  unfolding refresh_provider_credential
  refresh-Granted c providers =
      if_ind (λ (p : Option String × Providers). Granted c p.0)
        (not (is_set c.refresh_token) || not (is_set c.token_endpoint)) (λ _ token e. cc e)
        (λ set.
          on_some_ind (λ (p : Option String × Providers). Granted c p.0) (refresh c)
            (λ doc e token same. (ground arith, (doc, e, same))) (λ _ token e. cc e))

  token_of-IsUsable :
      (r : McpServerRecord) (provider : String) (c : ProviderCredentialRecord)
      (providers : Providers) (token : String)
      → stored providers r.oauth_provider ≡ some c
      → str_eq c.status "active" ≡ true
      → (token_of refresh now provider c providers).0 ≡ some token
      → IsUsable r providers token
  unfolding token_of IsUsable
  token_of-IsUsable r provider c providers token row active e =
      elim (Bool-cases (token_expired now c)) [
        | inl old ↦
            let found = refresh_provider_credential refresh now c providers in
            elim (Bool-cases (is_set found.0)) [
              | inl good ↦
                  (c, row, active, inr (refresh-Granted c providers token (rw (old, good) at e)))
              | inr bad ↦ cc (rw (old, bad) at e)
            ]
        | inr fresh ↦ elim (Bool-cases (is_set c.access_token)) [
          | inl good ↦ (c, row, active, inl (fresh, rw (fresh, good) at e))
          | inr bad ↦ cc (rw (fresh, bad) at e)
        ]
      ]

  -- A run gets a token only from the active credential of the record's provider: the stored one
  -- where it has not expired, or one that the refresh grant gave.
  pub credential_token_for-IsUsable :
      (r : McpServerRecord) (providers : Providers) (token : String)
      → (credential_token_for refresh now r providers).0 ≡ some token
      → IsUsable r providers token
  unfolding credential_token_for
  credential_token_for-IsUsable r providers token e =
      elim (Option-cases (stored providers r.oauth_provider)) [
        | inl missing ↦ cc (rw missing at e)
        | inr (c, row) ↦ elim (Bool-cases (str_eq c.status "active")) [
          | inr idle ↦ cc (rw (row, idle) at e)
          | inl active ↦ elim (Option-cases r.oauth_provider) [
            | inl nobody ↦ cc (rw (row, active, nobody) at e)
            | inr (provider, named) ↦
                token_of-IsUsable r provider c providers token row active
                  (rw (row, active, named) at e)
          ]
        ]
      ]
