-- ===== src/Sandbox/Session/Lifetime.antt =====
-- How long a session's tokens stay readable.
use discovery_application.Base.{
  ℕ, ◌+◌, ◌≤◌, ◌≡◌, ap, arith, String, Option, none, some, lookup, lookup-put, lookup-pop, strip,
  Option-cases, inl, inr, ltb, false,
}
use discovery_application.Sandbox.Session.{
  TestSession, TokenPayload, Cipher, IsCipher, SessionStore, to_token_payload, store, load,
  loaded_session, is_expired, create_session, get_session, store_token, revoke_session, evict,
  lifetime,
}

pub in_time : (now later : ℕ) → later ≤ now + 1800 → ltb (now + 1800) later ≡ false
in_time now later h = ground arith

module _ (cipher : Cipher) (id raw : String) (p : TokenPayload) (s : SessionStore)
    (filed : lookup id s.entries ≡ some raw) (readable : cipher.decrypt raw ≡ some p) where
  pub load_hit : (now : ℕ) → load cipher id raw now s ≡ (some (loaded_session now p), s)
  unfolding load
  load_hit now = rw readable

  pub get_hit :
      (now later : ℕ)
      → later ≤ now + 1800
      → get_session cipher id now later s ≡ (some (loaded_session now p), s)
  unfolding get_session load loaded_session is_expired
  get_hit now later h = rw (filed, readable, in_time now later h)

  pub token_hit :
      (token type : String) (refresh : Option String) (method : String) (ttl : Option ℕ)
      (now later : ℕ)
      → store_token cipher id token type refresh method ttl now later s ≡ (
        some (record (loaded_session now p) {
          access_token = some (strip token);
          token_type = some type;
          refresh_token = refresh;
          auth_method = some method;
          expires_at = later + lifetime ttl;
        }),
        store cipher
            (record (loaded_session now p) {
              access_token = some (strip token);
              token_type = some type;
              refresh_token = refresh;
              auth_method = some method;
              expires_at = later + lifetime ttl;
            })
            s,
      )
  unfolding store_token load
  token_hit token type refresh method ttl now later = rw (filed, readable)

pub lookup-store :
    (cipher : Cipher) (session : TestSession) (s : SessionStore)
    → lookup session.session_id (store cipher session s).entries
      ≡ some (cipher.encrypt (to_token_payload session))
unfolding store
lookup-store cipher session s = lookup-put session.session_id _ s.entries

-- The session that a test keeps once its token is stored, read at the time `now`.
abbrev pub kept_session :
    String → String → String → String → Option String → String → ℕ → TestSession
kept_session item_id id token type refresh method now = record {
  item_id = item_id;
  session_id = id;
  created_at = 0;
  expires_at = now + 1800;
  oauth_state = none;
  access_token = some (strip token);
  refresh_token = refresh;
  token_type = some type;
  auth_method = some method;
}

lookup-revoke :
    (cipher : Cipher) (id : String) (s : SessionStore)
    → lookup id (revoke_session cipher id s).1.entries ≡ none
unfolding revoke_session evict
lookup-revoke cipher id s = elim (Option-cases (lookup id s.entries)) [
  | inl missing ↦ rw missing missing
  | inr (raw, found) ↦ rw found (lookup-pop id s.entries)
]

module _ (cipher : Cipher) (id : String) (s : SessionStore)
    (missing : lookup id s.entries ≡ none) where
  pub get_miss : (now later : ℕ) → get_session cipher id now later s ≡ (none, s)
  unfolding get_session
  get_miss now later = rw missing

  pub token_miss :
      (token type : String) (refresh : Option String) (method : String) (ttl : Option ℕ)
      (now later : ℕ)
      → store_token cipher id token type refresh method ttl now later s ≡ (none, s)
  unfolding store_token
  token_miss token type refresh method ttl now later = rw missing

module _ (cipher : Cipher) (law : IsCipher cipher) (s : SessionStore)
    (item_id id token type : String) (refresh : Option String) (method : String)
    (ttl : Option ℕ) where
  -- A session that was created and given a token is read back with that token, stripped of
  -- spaces, at any later time, however short the lifetime that was asked for: only the time
  -- between the two readings of the clock in `get_session` counts.
  pub get-store-create :
      (t1 t2 t3 now later : ℕ)
      → later ≤ now + 1800
      → (get_session cipher id now later
          (store_token cipher id token type refresh method ttl t2 t3
            (create_session cipher item_id id t1 s).1).1).0
        ≡ some (kept_session item_id id token type refresh method now)
  unfolding create_session to_token_payload loaded_session
  get-store-create t1 t2 t3 now later h =
      let created = create_session cipher item_id id t1 s in
      let stored = store_token cipher id token type refresh method ttl t2 t3 created.1 in
      let updated = record (kept_session item_id id token type refresh method 0) {
        expires_at = t3 + lifetime ttl;
      } in
      rw
        (token_hit cipher id _ (to_token_payload created.0) created.1
          (lookup-store cipher created.0 s) (law _) token type refresh method ttl t2 t3)
        (ap (λ r. r.0)
          (get_hit cipher id _ _ _ (lookup-store cipher updated created.1) (law _) now later h))

-- A revoked session is gone: it is not read again, and a token that arrives later is not kept.
pub get-revoke :
    (cipher : Cipher) (id : String) (s : SessionStore) (now later t2 t3 : ℕ) (token type : String)
    (refresh : Option String) (method : String) (ttl : Option ℕ)
    → ((get_session cipher id now later (revoke_session cipher id s).1).0 ≡ none)
      × (store_token cipher id token type refresh method ttl t2 t3 (revoke_session cipher id s).1
          ≡ (none, (revoke_session cipher id s).1))
get-revoke cipher id s now later t2 t3 token type refresh method ttl =
    let gone = lookup-revoke cipher id s in
    let left = (revoke_session cipher id s).1 in
    (
      ap (λ r. r.0) (get_miss cipher id left gone now later),
      token_miss cipher id left gone token type refresh method ttl t2 t3,
    )
