-- ===== src/Sandbox/Session/Isolation.antt =====
-- Sequences of calls on the store: every entry stays under its own id, and sessions do not touch
-- each other, sweeps included.
use discovery_application.Base.{
  ℕ, ◌≡◌, ◌≢◌, ◌≤◌, ◌+◌, refl, ◌∙◌, String, Option, List, [], ◌∷◌, All, lookup, lookup-pop_other,
  ◌⊎◌, inl, inr,
}
use discovery_application.Sandbox.Session.{
  TestSession, Cipher, IsCipher, SessionStore, store, create_session, get_session, store_token,
  set_oauth_state, revoke_session, cleanup_expired, evict,
}
use discovery_application.Sandbox.Session.Effects.{
  IsFiled, read_cases, evict-IsFiled, store-IsFiled, store-other, token_cases, state_cases,
  revoke_cases,
}
use discovery_application.Sandbox.Session.Cleanup.{
  AreReadable, evict-AreReadable, store-AreReadable, cleanup-IsFiled,
}

-- A call of the store, with its readings of the clock.
pub data SessionOp : Type 0 where
  create : String → String → ℕ → SessionOp
  read : String → ℕ → ℕ → SessionOp
  keep_token : String → String → String → Option String → String → Option ℕ → ℕ → ℕ → SessionOp
  keep_state : String → String → ℕ → SessionOp
  revoke : String → SessionOp
  sweep : (String → ℕ × ℕ) → ℕ → SessionOp

-- The call does not name the session, and a sweep finds it in time.
abbrev pub Spares : String → SessionOp → Type 0
Spares id (create item_id key now) = id ≢ key
Spares id (read key now later) = id ≢ key
Spares id (keep_token key token type refresh method ttl now later) = id ≢ key
Spares id (keep_state key state now) = id ≢ key
Spares id (revoke key) = id ≢ key
Spares id (sweep clock now) = (clock id).1 ≤ (clock id).0 + 1800

unfoldable pub step : Cipher → SessionOp → SessionStore → SessionStore
step cipher (create item_id id now) s = (create_session cipher item_id id now s).1
step cipher (read id now later) s = (get_session cipher id now later s).1
step cipher (keep_token id token type refresh method ttl now later) s =
    (store_token cipher id token type refresh method ttl now later s).1
step cipher (keep_state id state now) s = (set_oauth_state cipher id state now s).1
step cipher (revoke id) s = (revoke_session cipher id s).1
step cipher (sweep clock now) s = (cleanup_expired cipher clock now s).1

unfoldable pub steps : Cipher → List SessionOp → SessionStore → SessionStore
unfolding step
steps cipher [] s = s
steps cipher (op ∷ ops) s = steps cipher ops (step cipher op s)

module _ (cipher : Cipher) where
  module _ (law : IsCipher cipher) where
    -- Every entry is readable, and under the id of its own session.
    abbrev pub IsSound : SessionStore → Type 0
    IsSound s = IsFiled cipher s × AreReadable cipher s.entries

    -- What a call on the session `key` keeps of a sound store.
    abbrev Keeps : String → SessionStore → SessionStore → Type 0
    Keeps key s t =
        IsSound t × ((id : String) → id ≢ key → lookup id t.entries ≡ lookup id s.entries)

    evicted-Keeps :
        (key : String) (s t : SessionStore)
        → IsSound s
        → (t ≡ s) ⊎ (t ≡ evict key s)
        → Keeps key s t
    unfolding evict
    evicted-Keeps key s t h (inl e) = rw e (h, λ id other. refl)
    evicted-Keeps key s t (h, r) (inr e) = rw e (
      (evict-IsFiled cipher key s h, evict-AreReadable cipher key s r),
      λ id other. lookup-pop_other key id s.entries other,
    )

    written-Keeps :
        (key : String) (s t : SessionStore)
        → IsSound s
        → (t ≡ s)
          ⊎ ((session : TestSession) × (session.session_id ≡ key) × (t ≡ store cipher session s))
        → Keeps key s t
    written-Keeps key s t h (inl e) = rw e (h, λ id other. refl)
    written-Keeps key s t (h, r) (inr (session, own, e)) = rw e (
      (store-IsFiled cipher law session s h, store-AreReadable cipher law session s r),
      λ id other. store-other cipher session id s (λ k. other (k ∙ own)),
    )

    step-IsSound :
        (op : SessionOp) (s : SessionStore)
        → IsSound s
        → IsSound (step cipher op s)
          × ((id : String)
              → Spares id op
              → lookup id (step cipher op s).entries ≡ lookup id s.entries)
    unfolding step create_session
    step-IsSound (create item_id key now) s h =
        written-Keeps key s _ h (inr ((create_session cipher item_id key now s).0, refl, refl))
    step-IsSound (read key now later) s h =
        evicted-Keeps key s _ h (read_cases cipher key now later s)
    step-IsSound (keep_token key token type refresh method ttl now later) s h =
        written-Keeps key s _ h
          (token_cases cipher key token type refresh method ttl now later s h.0)
    step-IsSound (keep_state key state now) s h =
        written-Keeps key s _ h (state_cases cipher key state now s h.0)
    step-IsSound (revoke key) s h = evicted-Keeps key s _ h (revoke_cases cipher key s)
    step-IsSound (sweep clock now) s (h, r) =
        let (filed, readable, kept) = cleanup-IsFiled cipher clock now s h r in
        ((filed, readable), kept)

    -- Whatever calls are made on a sound store, in any order, sweeps included, every entry stays
    -- readable and holds the session of its own id, and the entry of a session that none of them
    -- names is left as it was, where each sweep reads its clock for that entry within half an hour.
    pub steps-IsFiled :
        (ops : List SessionOp) (s : SessionStore)
        → IsSound s
        → IsSound (steps cipher ops s)
          × ((id : String)
              → All (Spares id) ops
              → lookup id (steps cipher ops s).entries ≡ lookup id s.entries)
    unfolding steps
    steps-IsFiled [] s h = (h, λ id others. refl)
    steps-IsFiled (op ∷ ops) s h =
        let (sound, kept) = step-IsSound op s h in
        let (done, same) = steps-IsFiled ops (step cipher op s) sound in
        (done, λ id (other, others). same id others ∙ kept id other)
