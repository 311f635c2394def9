-- ===== src/Verification/Pipeline/Badge.antt =====
-- The verified badge, as `_finalize` of platform/backend/app/verification/verifiers.py keeps it.
use discovery_application.Base.{
  ℕ, ◌+◌, ◌*◌, ◌≡◌, ◌≢◌, ◌⊎◌, ◌↔◌, refl, true, false, arith, some, none, any, List, [], ◌∷◌, is_nil,
  Bool, sym, ◌∙◌, inl, inr, ◌||◌,
}
use discovery_application.Verification.Models.{
  ServerStatus, McpServerRecord, is_success, is_verified,
}
use discovery_application.Verification.Scoring.{ttl_days_for}
use discovery_application.Verification.Checks.{AttemptOutcome, call_succeeded}
use discovery_application.Verification.Pipeline.{
  Providers, verdict, badge_earned, finalize, microseconds_per_day,
}
use discovery_application.Verification.Pipeline.Fields.{
  finalize-status, finalize-badge, finalize-invocation, finalize-ttl, finalize-via,
}
use discovery_application.Verification.Pipeline.Verdict.{verdict-verified-invocation}

-- A run lists tool calls only if it connected, as each `return AttemptOutcome(…)` has it.
abbrev pub IsCoherent : AttemptOutcome → Type 0
IsCoherent o = (is_success o.kind ≡ true) ⊎ (o.tool_outcomes ≡ [])

any-not_nil {ℓ} : {A : Type ℓ} (p : A → Bool) (xs : List A) → any p xs ≡ true → is_nil xs ≡ false
any-not_nil p [] h = cc
any-not_nil p (x ∷ xs) h = refl

connected_of_call :
    (o : AttemptOutcome)
    → IsCoherent o
    → any call_succeeded o.tool_outcomes ≡ true
    → is_success o.kind ≡ true
connected_of_call o (inl e) h = e
connected_of_call o (inr e) h = cc (rw e at h)

earned_of_call :
    (status : ServerStatus) (o : AttemptOutcome)
    → status ≡ ServerStatus.verified
    → any call_succeeded o.tool_outcomes ≡ true
    → badge_earned status o ≡ true
unfolding badge_earned
earned_of_call status o v h = ground (arith, any-not_nil call_succeeded o.tool_outcomes)

not_verified : (s : ServerStatus) → s ≢ ServerStatus.verified → is_verified s ≡ false
not_verified s h = ground arith

or_true : (b : Bool) → b || true ≡ true
or_true true = refl
or_true false = refl

-- A run that leaves a server `verified` connected and called a tool with success; it awards the
-- badge, marks how it was earned, and sets the expiry to the transport's days from now.
pub finalize-verified :
    (providers : Providers) (r : McpServerRecord) (o : AttemptOutcome) (now : ℕ)
    → IsCoherent o
    → (finalize providers r o now).status ≡ ServerStatus.verified
    → (is_success o.kind ≡ true)
      × (any call_succeeded o.tool_outcomes ≡ true)
      × ((finalize providers r o now).verified_badge ≡ true)
      × ((finalize providers r o now).verified_via_auth ≡ o.auth_exercised)
      × ((finalize providers r o now).invocation_verified ≡ true)
      × ((finalize providers r o now).ttl_expires_at
          ≡ some (now + ttl_days_for r.transport * microseconds_per_day))
finalize-verified providers r o now c h =
    let v : verdict providers r o ≡ ServerStatus.verified =
      sym (finalize-status providers r o now) ∙ h in
    let called = verdict-verified-invocation providers r o v in
    let connected = connected_of_call o c called in
    let earned = earned_of_call (verdict providers r o) o v called in
    (
      connected,
      called,
      finalize-badge providers r o now ∙ rw (connected, earned),
      finalize-via providers r o now connected earned,
      finalize-invocation providers r o now connected ∙ called,
      finalize-ttl providers r o now connected ∙ rw v,
    )

-- A run that connected but did not end in `verified` leaves the badge of an earlier run in place.
pub finalize-badge_stale :
    (providers : Providers) (r : McpServerRecord) (o : AttemptOutcome) (now : ℕ)
    → r.verified_badge ≡ true
    → is_success o.kind ≡ true
    → (finalize providers r o now).status ≢ ServerStatus.verified
    → ((finalize providers r o now).verified_badge ≡ true)
      × ((finalize providers r o now).ttl_expires_at ≡ none)
finalize-badge_stale providers r o now b k h =
    let other : is_verified (verdict providers r o) ≡ false =
      not_verified (verdict providers r o) (λ e. h (finalize-status providers r o now ∙ e)) in
    (
      finalize-badge providers r o now ∙ rw (k, b) (or_true _),
      finalize-ttl providers r o now k ∙ rw other,
    )

-- The badge after a run: earned by it, or kept from before over a run that connected.
pub finalize-badge_iff :
    (providers : Providers) (r : McpServerRecord) (o : AttemptOutcome) (now : ℕ)
    → ((finalize providers r o now).verified_badge ≡ true) ↔ (
        (is_success o.kind ≡ true)
        × ((badge_earned (verdict providers r o) o ≡ true) ⊎ (r.verified_badge ≡ true)))
finalize-badge_iff providers r o now = rw (finalize-badge providers r o now) (ground arith)
