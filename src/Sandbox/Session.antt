-- ===== src/Sandbox/Session.antt =====
-- The store of test sessions, platform/backend/app/sandbox/session.py. Its entries are encrypted
-- texts: encryption stands for `json.dumps` and Fernet with the process's key, and decryption for the
-- inverse, which fails on what it cannot read. The time is `time.monotonic()` in seconds, read by
-- the caller; a random session id is an argument. Each method runs under the store's lock.
pub mod Lifetime
pub mod Effects
pub mod Isolation
pub mod Cleanup
use discovery_application.Base.{
  ℕ, ◌+◌, ◌-◌, ◌≡◌, String, Bool, true, false, Option, none, some, List, [], ◌∷◌, length, ltb, ◌==◌,
  Dict, lookup, put, pop, strip, on_some, is_some, if◌then◌else◌,
}

abbrev pub token_ttl_seconds : ℕ
token_ttl_seconds = 1800

abbrev pub cleanup_interval_seconds : ℕ
cleanup_interval_seconds = 60

pub record TestSession : Type 0 where
  pub item_id : String
  pub session_id : String
  pub created_at : ℕ
  pub expires_at : ℕ
  pub oauth_state : Option String
  pub access_token : Option String
  pub refresh_token : Option String
  pub token_type : Option String
  pub auth_method : Option String

-- `is_expired`, where the clock shows `now`.
unfoldable pub is_expired : ℕ → TestSession → Bool
is_expired now session = ltb session.expires_at now

-- The dict that `to_token_payload` makes: neither time is in it.
pub record TokenPayload : Type 0 where
  pub item_id : String
  pub session_id : String
  pub oauth_state : Option String
  pub access_token : Option String
  pub refresh_token : Option String
  pub token_type : Option String
  pub auth_method : Option String

unfoldable pub to_token_payload : TestSession → TokenPayload
to_token_payload s = record {
  item_id = s.item_id;
  session_id = s.session_id;
  oauth_state = s.oauth_state;
  access_token = s.access_token;
  refresh_token = s.refresh_token;
  token_type = s.token_type;
  auth_method = s.auth_method;
}

pub record Cipher : Type 0 where
  pub encrypt : TokenPayload → String
  pub decrypt : String → Option TokenPayload

-- What was encrypted is decrypted again.
abbrev pub IsCipher : Cipher → Type 0
IsCipher cipher = (p : TokenPayload) → cipher.decrypt (cipher.encrypt p) ≡ some p

pub record SessionStore : Type 0 where
  pub entries : Dict String
  pub last_cleanup : ℕ

unfoldable pub evict : String → SessionStore → SessionStore
evict session_id s = record s { entries = pop session_id s.entries }

-- A session as `_load` builds it from the payload.
unfoldable pub loaded_session : ℕ → TokenPayload → TestSession
loaded_session now p = record {
  item_id = p.item_id;
  session_id = p.session_id;
  created_at = 0;
  expires_at = now + token_ttl_seconds;
  oauth_state = p.oauth_state;
  access_token = p.access_token;
  refresh_token = p.refresh_token;
  token_type = p.token_type;
  auth_method = p.auth_method;
}

abbrev pub evict_each : List String → SessionStore → SessionStore
evict_each [] s = s
evict_each (id ∷ ids) s = evict_each ids (evict id s)

-- `ttl_seconds or TOKEN_TTL_SECONDS`.
abbrev pub lifetime : Option ℕ → ℕ
lifetime none = token_ttl_seconds
lifetime (some n) = if n == 0 then token_ttl_seconds else n

module _ (cipher : Cipher) where
  unfoldable pub store : TestSession → SessionStore → SessionStore
  unfolding to_token_payload
  store session s = record s {
    entries = put session.session_id (cipher.encrypt (to_token_payload session)) s.entries;
  }

  -- `_load`: what cannot be decrypted is evicted.
  unfoldable pub load : String → String → ℕ → SessionStore → Option TestSession × SessionStore
  unfolding evict loaded_session
  load session_id raw now s =
      on_some (cipher.decrypt raw) (λ p. (some (loaded_session now p), s))
        (none, evict session_id s)

  unfoldable pub create_session : String → String → ℕ → SessionStore → TestSession × SessionStore
  unfolding store
  create_session item_id session_id now s =
      let session : TestSession = record {
        item_id = item_id;
        session_id = session_id;
        created_at = now;
        expires_at = now + token_ttl_seconds;
        oauth_state = none;
        access_token = none;
        refresh_token = none;
        token_type = none;
        auth_method = none;
      } in
      (session, store session s)

  -- `get_session`; the clock is read by `_load` and again by `is_expired`.
  unfoldable pub get_session : String → ℕ → ℕ → SessionStore → Option TestSession × SessionStore
  unfolding load is_expired
  get_session session_id now later s =
      on_some (lookup session_id s.entries)
        (λ raw.
          let (session?, s') = load session_id raw now s in
          on_some session?
            (λ session.
              if is_expired later session then (none, evict session_id s') else (some session, s'))
            (none, s'))
        (none, s)

  unfoldable pub store_token :
      String
      → String
      → String
      → Option String
      → String
      → Option ℕ
      → ℕ
      → ℕ
      → SessionStore
      → Option TestSession × SessionStore
  unfolding load store
  store_token session_id access_token token_type refresh_token auth_method ttl_seconds now later s =
      on_some (lookup session_id s.entries)
        (λ raw.
          let (session?, s') = load session_id raw now s in
          on_some session?
            (λ session.
              let updated = record session {
                access_token = some (strip access_token);
                token_type = some token_type;
                refresh_token = refresh_token;
                auth_method = some auth_method;
                expires_at = later + lifetime ttl_seconds;
              } in
              (some updated, store updated s'))
            (none, s'))
        (none, s)

  unfoldable pub set_oauth_state : String → String → ℕ → SessionStore → Bool × SessionStore
  unfolding load store
  set_oauth_state session_id state now s =
      on_some (lookup session_id s.entries)
        (λ raw.
          let (session?, s') = load session_id raw now s in
          on_some session?
            (λ session. (true, store (record session { oauth_state = some state }) s')) (false, s'))
        (false, s)

  unfoldable pub get_oauth_state : String → ℕ → ℕ → SessionStore → Option String × SessionStore
  unfolding get_session
  get_oauth_state session_id now later s =
      let (session?, s') = get_session session_id now later s in
      (on_some session? (λ session. session.oauth_state) none, s')

  unfoldable pub revoke_session : String → SessionStore → Bool × SessionStore
  unfolding evict
  revoke_session session_id s =
      if is_some (lookup session_id s.entries) then (true, evict session_id s) else (false, s)

  -- The ids that the comprehension of `cleanup_expired` collects, over a copy of the items; for
  -- each item, the readings of the clock by the second `_load` and by `is_expired`.
  unfoldable pub expired_ids :
      (String → ℕ × ℕ) → Dict String → SessionStore → List String × SessionStore
  unfolding load is_expired
  expired_ids clock [] s = ([], s)
  expired_ids clock ((id, raw) ∷ items) s =
      let (session?, s') = load id raw (clock id).0 s in
      let (ids, s'') = expired_ids clock items s' in
      if on_some session? (λ session. is_expired (clock id).1 session) true
      then (id ∷ ids, s'')
      else (ids, s'')

  unfoldable pub cleanup_expired : (String → ℕ × ℕ) → ℕ → SessionStore → ℕ × SessionStore
  unfolding expired_ids evict
  cleanup_expired clock now s =
      if ltb (now - s.last_cleanup) cleanup_interval_seconds
      then (0, s)
      else let (ids, s') = expired_ids clock s.entries (record s { last_cleanup = now }) in
        let swept = evict_each ids s' in (length s.entries - length swept.entries, swept)
