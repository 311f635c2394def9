-- ===== src/Sandbox/Session/Effects.antt =====
-- What each call of the store leaves: the store as it was, without a session, or with one written.
use discovery_application.Base.{
  ℕ, ◌≡◌, ◌≢◌, refl, sym, ap, ◌∙◌, subst, arith, String, Bool, true, false, Option, none, some,
  lookup, pop, lookup-put_other, lookup-pop, lookup-pop_other, text-cases, Option-cases, ◌⊎◌, inl,
  inr, if◌then◌else◌, on_some_ind,
}
use discovery_application.Sandbox.Session.{
  TestSession, TokenPayload, Cipher, IsCipher, SessionStore, to_token_payload, store, load,
  loaded_session, is_expired, get_session, store_token, set_oauth_state, revoke_session, evict,
}
use discovery_application.Sandbox.Session.Lifetime.{token_hit, token_miss, lookup-store}

-- Every entry can be decrypted, and holds the session of its own id.
abbrev pub IsFiled : Cipher → SessionStore → Type 0
IsFiled cipher s =
    (id raw : String)
    → lookup id s.entries ≡ some raw
    → (p : TokenPayload) × (cipher.decrypt raw ≡ some p) × (p.session_id ≡ id)

some_inj : {A : Type 0} (a b : A) → ◌≡◌ {A = Option A} (some a) (some b) → a ≡ b
some_inj a b h = cc

either_store :
    (b : Bool) (x y : Option TestSession × SessionStore)
    → ((if b then y else x) ≡ x) ⊎ ((if b then y else x) ≡ y)
either_store true x y = inr refl
either_store false x y = inl refl

module _ (cipher : Cipher) where
  -- What a read leaves: the store, or the store without the session.
  pub read_cases :
      (id : String) (now later : ℕ) (s : SessionStore)
      → ((get_session cipher id now later s).1 ≡ s)
        ⊎ ((get_session cipher id now later s).1 ≡ evict id s)
  unfolding get_session load
  read_cases id now later s =
      on_some_ind (λ (r : Option TestSession × SessionStore). (r.1 ≡ s) ⊎ (r.1 ≡ evict id s))
        (lookup id s.entries)
        (λ raw found. elim (Option-cases (cipher.decrypt raw)) [
          | inl bad ↦ rw bad (inr refl)
          | inr (p, good) ↦
              rw good
                (elim (either_store (is_expired later (loaded_session now p))
                  (some (loaded_session now p), s) (none, evict id s)) [
                    | inl e ↦ inl (ap (λ r. r.1) e)
                    | inr e ↦ inr (ap (λ r. r.1) e)
                  ])
        ])
        (λ missing. inl refl)

  pub evict-IsFiled :
      (key : String) (s : SessionStore) → IsFiled cipher s → IsFiled cipher (evict key s)
  unfolding evict
  evict-IsFiled key s h id raw found = elim (text-cases id key) [
    | inl same ↦
        cc (sym found ∙ ap (λ k. lookup k (pop key s.entries)) same ∙ lookup-pop key s.entries)
    | inr other ↦ h id raw (sym (lookup-pop_other key id s.entries other) ∙ found)
  ]

  module _ (law : IsCipher cipher) where
    pub store-IsFiled :
        (session : TestSession) (s : SessionStore)
        → IsFiled cipher s
        → IsFiled cipher (store cipher session s)
    unfolding store
    store-IsFiled session s h id raw found = elim (text-cases id session.session_id) [
      | inl same ↦
          let kept = subst (λ k. lookup k (store cipher session s).entries ≡ some raw) same found in
          let text = some_inj _ raw (sym (lookup-store cipher session s) ∙ kept) in
          (
            to_token_payload session,
            subst (λ t. cipher.decrypt t ≡ some (to_token_payload session)) text (law _),
            sym same,
          )
      | inr other ↦
          h id raw (sym (lookup-put_other session.session_id id _ s.entries other) ∙ found)
    ]

  pub store-other :
      (session : TestSession) (id : String) (s : SessionStore)
      → id ≢ session.session_id
      → lookup id (store cipher session s).entries ≡ lookup id s.entries
  unfolding store
  store-other session id s other = lookup-put_other session.session_id id _ s.entries other

  -- What a write leaves, where the session is there.
  pub token_cases :
      (id token type : String) (refresh : Option String) (method : String) (ttl : Option ℕ)
      (now later : ℕ) (s : SessionStore)
      → IsFiled cipher s
      → ((store_token cipher id token type refresh method ttl now later s).1 ≡ s)
        ⊎ ((session : TestSession) × (session.session_id ≡ id)
            × ((store_token cipher id token type refresh method ttl now later s).1
                ≡ store cipher session s))
  unfolding loaded_session
  token_cases id token type refresh method ttl now later s h =
      elim (Option-cases (lookup id s.entries)) [
        | inl missing ↦
            inl (
              ap (λ r. r.1)
                (token_miss cipher id s missing token type refresh method ttl now later))
        | inr (raw, found) ↦
            let (p, good, own) = h id raw found in
            inr (
              _,
              own,
              ap (λ r. r.1)
                  (token_hit cipher id raw p s found good token type refresh method ttl now later),
            )
      ]

  pub state_cases :
      (id state : String) (now : ℕ) (s : SessionStore)
      → IsFiled cipher s
      → ((set_oauth_state cipher id state now s).1 ≡ s)
        ⊎ ((session : TestSession) × (session.session_id ≡ id)
            × ((set_oauth_state cipher id state now s).1 ≡ store cipher session s))
  unfolding loaded_session set_oauth_state load
  state_cases id state now s h = elim (Option-cases (lookup id s.entries)) [
    | inl missing ↦ inl (rw missing)
    | inr (raw, found) ↦
        let (p, good, own) = h id raw found in
        inr (record (loaded_session now p) { oauth_state = some state }, own, rw (found, good))
  ]

  pub revoke_cases :
      (id : String) (s : SessionStore)
      → ((revoke_session cipher id s).1 ≡ s) ⊎ ((revoke_session cipher id s).1 ≡ evict id s)
  unfolding revoke_session
  revoke_cases id s = ground arith
