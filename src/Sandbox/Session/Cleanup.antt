-- ===== src/Sandbox/Session/Cleanup.antt =====
-- What the sweep of the session store removes.
use discovery_application.Base.{
  ℕ, ◌+◌, ◌≤◌, ◌≡◌, ◌≢◌, ◌⊎◌, refl, sym, ap, ◌∙◌, arith, String, List, some, [], ◌∷◌, All, Dict,
  put, pop, lookup, lookup-pop_other, ltb, str_eq, Bool-cases, inl, inr, ◌-◌, true,
}
use discovery_application.Sandbox.Session.{
  TestSession, TokenPayload, Cipher, IsCipher, SessionStore, to_token_payload, store, evict,
  evict_each, load, loaded_session, is_expired, expired_ids, cleanup_expired,
}
use discovery_application.Sandbox.Session.Lifetime.{in_time}
use discovery_application.Sandbox.Session.Effects.{IsFiled, evict-IsFiled}

-- Every entry can be decrypted.
abbrev pub AreReadable : Cipher → Dict String → Type 0
AreReadable cipher = All (λ item. (p : TokenPayload) × (cipher.decrypt item.1 ≡ some p))

put-AreReadable :
    (cipher : Cipher) (key raw : String) (p : TokenPayload) (d : Dict String)
    → cipher.decrypt raw ≡ some p
    → AreReadable cipher d
    → AreReadable cipher (put key raw d)
put-AreReadable cipher key raw p [] good h = ((p, good), tt)
put-AreReadable cipher key raw p ((k, v) ∷ d) good (h, hs) = elim (Bool-cases (str_eq k key)) [
  | inl same ↦ rw same ((p, good), hs)
  | inr other ↦ rw other (h, put-AreReadable cipher key raw p d good hs)
]

pop-AreReadable :
    (cipher : Cipher) (key : String) (d : Dict String)
    → AreReadable cipher d
    → AreReadable cipher (pop key d)
pop-AreReadable cipher key [] h = tt
pop-AreReadable cipher key ((k, v) ∷ d) (h, hs) = elim (Bool-cases (str_eq k key)) [
  | inl same ↦ rw same (pop-AreReadable cipher key d hs)
  | inr other ↦ rw other (h, pop-AreReadable cipher key d hs)
]

pub evict-AreReadable :
    (cipher : Cipher) (key : String) (s : SessionStore)
    → AreReadable cipher s.entries
    → AreReadable cipher (evict key s).entries
unfolding evict
evict-AreReadable cipher key s h = pop-AreReadable cipher key s.entries h

pub store-AreReadable :
    (cipher : Cipher) (law : IsCipher cipher) (session : TestSession) (s : SessionStore)
    → AreReadable cipher s.entries
    → AreReadable cipher (store cipher session s).entries
unfolding store
store-AreReadable cipher law session s h =
    put-AreReadable cipher session.session_id _ (to_token_payload session) s.entries (law _) h

evict_each-IsFiled :
    (cipher : Cipher) (ids : List String) (s : SessionStore)
    → IsFiled cipher s
    → AreReadable cipher s.entries
    → IsFiled cipher (evict_each ids s) × AreReadable cipher (evict_each ids s).entries
evict_each-IsFiled cipher [] s h r = (h, r)
evict_each-IsFiled cipher (id ∷ ids) s h r =
    evict_each-IsFiled cipher ids (evict id s) (evict-IsFiled cipher id s h)
      (evict-AreReadable cipher id s r)

evict_each-other :
    (id : String) (ids : List String) (s : SessionStore)
    → All (λ key. key ≢ id) ids
    → lookup id (evict_each ids s).entries ≡ lookup id s.entries
unfolding evict
evict_each-other id [] s h = refl
evict_each-other id (key ∷ ids) s (other, others) =
    evict_each-other id ids (evict key s) others
    ∙ lookup-pop_other key id s.entries (λ e. other (sym e))

module _ (cipher : Cipher) (clock : String → ℕ × ℕ) where
  late_in_time :
      (key id : String) (p : TokenPayload)
      → key ≡ id
      → is_expired (clock key).1 (loaded_session (clock key).0 p) ≡ true
      → (clock id).1 ≤ (clock id).0 + 1800
      → ⊥
  unfolding is_expired loaded_session
  late_in_time key id p e late due =
      let same : (clock key).0 ≡ (clock id).0 = ap (λ k. (clock k).0) e in
      let same' : (clock key).1 ≡ (clock id).1 = ap (λ k. (clock k).1) e in
      ground (arith, late, due, same, same')

  -- The sweep of a readable store evicts no session in time, and changes nothing while it looks.
  expired_ids-others :
      (items : Dict String) (s : SessionStore)
      → AreReadable cipher items
      → ((expired_ids cipher clock items s).1 ≡ s)
        × ((id : String)
            → (clock id).1 ≤ (clock id).0 + 1800
            → All (λ key. key ≢ id) (expired_ids cipher clock items s).0)
  unfolding expired_ids load
  expired_ids-others [] s h = (refl, λ id due. tt)
  expired_ids-others ((key, raw) ∷ items) s ((p, good), rest) =
      let (same, others) = expired_ids-others items s rest in
      elim (Bool-cases (is_expired (clock key).1 (loaded_session (clock key).0 p))) [
        | inl late ↦
            rw (good, late)
              (same, λ id due. (λ (e : key ≡ id). late_in_time key id p e late due, others id due))
        | inr fine ↦ rw (good, fine) (same, others)
      ]

  -- What a sweep leaves: the store, or the store without the sessions that it found.
  cleanup_cases :
      (now : ℕ) (s : SessionStore)
      → AreReadable cipher s.entries
      → ((cleanup_expired cipher clock now s).1 ≡ s)
        ⊎ ((cleanup_expired cipher clock now s).1
            ≡ evict_each
                (expired_ids cipher clock s.entries (record s { last_cleanup = now })).0
                (record s { last_cleanup = now }))
  unfolding cleanup_expired
  cleanup_cases now s h =
      let found = expired_ids-others s.entries (record s { last_cleanup = now }) h in
      elim (Bool-cases (ltb (now - s.last_cleanup) 60)) [
        | inl soon ↦ rw soon (inl refl)
        | inr later ↦ rw later (
            inr (
              ap
                (evict_each
                  (expired_ids cipher clock s.entries (record s { last_cleanup = now })).0)
                found.0))
      ]

  -- A sweep keeps every entry readable and under its id, and the entry of each session that the
  -- clock shows to be in time.
  pub cleanup-IsFiled :
      (now : ℕ) (s : SessionStore)
      → IsFiled cipher s
      → AreReadable cipher s.entries
      → IsFiled cipher (cleanup_expired cipher clock now s).1
        × AreReadable cipher (cleanup_expired cipher clock now s).1.entries
        × ((id : String)
            → (clock id).1 ≤ (clock id).0 + 1800
            → lookup id (cleanup_expired cipher clock now s).1.entries ≡ lookup id s.entries)
  cleanup-IsFiled now s h r = elim (cleanup_cases now s r) [
    | inl e ↦ rw e (h, r, λ id due. refl)
    | inr e ↦
        let swept : SessionStore = record s { last_cleanup = now } in
        let ids = (expired_ids cipher clock s.entries swept).0 in
        let (filed, readable) = evict_each-IsFiled cipher ids swept h r in
        rw e (
          filed,
          readable,
          λ id due. evict_each-other id ids swept ((expired_ids-others s.entries swept r).1 id due),
        )
  ]

module _ (cipher : Cipher) (clock : String → ℕ × ℕ)
    (due : (id : String) → (clock id).1 ≤ (clock id).0 + 1800) where
  expired_ids-nil :
      (items : Dict String) (s : SessionStore)
      → AreReadable cipher items
      → expired_ids cipher clock items s ≡ ([], s)
  unfolding expired_ids load is_expired loaded_session
  expired_ids-nil [] s h = refl
  expired_ids-nil ((id, raw) ∷ items) s ((p, good), rest) =
      rw (good, expired_ids-nil items s rest, in_time (clock id).0 (clock id).1 (due id))

-- The sweep removes no session that can be decrypted, however old it is: it leaves the entries as
-- they were and counts none, if no more than half an hour passes between its two readings of the
-- clock for one entry.
pub cleanup_expired-entries :
    (cipher : Cipher) (clock : String → ℕ × ℕ) (now : ℕ) (s : SessionStore)
    → ((id : String) → (clock id).1 ≤ (clock id).0 + 1800)
    → All (λ item. (p : TokenPayload) × (cipher.decrypt item.1 ≡ some p)) s.entries
    → ((cleanup_expired cipher clock now s).0 ≡ 0)
      × ((cleanup_expired cipher clock now s).1.entries ≡ s.entries)
unfolding cleanup_expired
cleanup_expired-entries cipher clock now s due h =
    let none_expired =
      expired_ids-nil cipher clock due s.entries (record s { last_cleanup = now }) h in
    elim (Bool-cases (ltb (now - s.last_cleanup) 60)) [
      | inl soon ↦ rw soon (refl, refl)
      | inr later ↦ rw (later, none_expired) (omega arith, refl)
    ]
