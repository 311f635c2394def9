-- ===== src/Verification/Pipeline/Fields.antt =====
-- The fields that each part of `_finalize`'s updates writes and leaves alone.
use discovery_application.Base.{
  ℕ, ◌+◌, ◌*◌, ◌≡◌, true, false, ◌||◌, ◌∙◌, ap, arith, some, none, any, if◌then◌else◌,
}
use discovery_application.Verification.Models.{
  ServerStatus, McpServerRecord, is_success, is_verified,
}
use discovery_application.Verification.Scoring.{ScoreOutcome, ttl_days_for}
use discovery_application.Verification.Checks.{AttemptOutcome, call_succeeded}
use discovery_application.Verification.Pipeline.{
  Providers, verdict, badge_earned, finalize, base_updates, success_updates, badge_updates,
  rejection_updates, microseconds_per_day, attempts_completed_for, attempts_planned_for,
}

record SameVerdict (r s : McpServerRecord) : Type 0 where
  pub status : s.status ≡ r.status
  pub verified_badge : s.verified_badge ≡ r.verified_badge
  pub verified_via_auth : s.verified_via_auth ≡ r.verified_via_auth
  pub invocation_verified : s.invocation_verified ≡ r.invocation_verified
  pub ttl_expires_at : s.ttl_expires_at ≡ r.ttl_expires_at
  pub transport : s.transport ≡ r.transport
  pub attempts_completed : s.attempts_completed ≡ r.attempts_completed
  pub attempts_planned : s.attempts_planned ≡ r.attempts_planned

rejection_updates-SameVerdict :
    (result : ScoreOutcome) (o : AttemptOutcome) (r : McpServerRecord)
    → SameVerdict r (rejection_updates result o r)
unfolding rejection_updates
rejection_updates-SameVerdict result o r = record {
  status = ground arith;
  verified_badge = ground arith;
  verified_via_auth = ground arith;
  invocation_verified = ground arith;
  ttl_expires_at = ground arith;
  transport = ground arith;
  attempts_completed = ground arith;
  attempts_planned = ground arith;
}

module _ (status : ServerStatus) (o : AttemptOutcome) (r : McpServerRecord) where
  badge_updates-status : (badge_updates status o r).status ≡ r.status
  unfolding badge_updates
  badge_updates-status = ground arith

  badge_updates-invocation : (badge_updates status o r).invocation_verified ≡ r.invocation_verified
  unfolding badge_updates
  badge_updates-invocation = ground arith

  badge_updates-ttl : (badge_updates status o r).ttl_expires_at ≡ r.ttl_expires_at
  unfolding badge_updates
  badge_updates-ttl = ground arith

  badge_updates-transport : (badge_updates status o r).transport ≡ r.transport
  unfolding badge_updates
  badge_updates-transport = ground arith

  badge_updates-attempts :
      ((badge_updates status o r).attempts_completed ≡ r.attempts_completed)
      × ((badge_updates status o r).attempts_planned ≡ r.attempts_planned)
  unfolding badge_updates
  badge_updates-attempts = (ground arith, ground arith)

  badge_updates-badge :
      (badge_updates status o r).verified_badge
      ≡ (if is_success o.kind then badge_earned status o || r.verified_badge else false)
  unfolding badge_updates
  badge_updates-badge = ground arith

  badge_updates-via :
      is_success o.kind ≡ true
      → badge_earned status o ≡ true
      → (badge_updates status o r).verified_via_auth ≡ o.auth_exercised
  unfolding badge_updates
  badge_updates-via h k = ground arith

  module _ (now : ℕ) where
    success_updates-status : (success_updates status o now r).status ≡ r.status
    unfolding success_updates
    success_updates-status = ground arith

    success_updates-badge : (success_updates status o now r).verified_badge ≡ r.verified_badge
    unfolding success_updates
    success_updates-badge = ground arith

    success_updates-transport : (success_updates status o now r).transport ≡ r.transport
    unfolding success_updates
    success_updates-transport = ground arith

    success_updates-attempts :
        ((success_updates status o now r).attempts_completed ≡ r.attempts_completed)
        × ((success_updates status o now r).attempts_planned ≡ r.attempts_planned)
    unfolding success_updates
    success_updates-attempts = (ground arith, ground arith)

    success_updates-invocation :
        is_success o.kind ≡ true
        → (success_updates status o now r).invocation_verified ≡ any call_succeeded o.tool_outcomes
    unfolding success_updates
    success_updates-invocation h = rw h

    success_updates-ttl :
        is_success o.kind ≡ true
        → (success_updates status o now r).ttl_expires_at ≡ (
            if is_verified status
            then some (now + ttl_days_for r.transport * microseconds_per_day)
            else none)
    unfolding success_updates
    success_updates-ttl h = rw h

module _ (providers : Providers) (r : McpServerRecord) (o : AttemptOutcome) (now : ℕ) where
  abbrev base : McpServerRecord
  base = base_updates providers r o now

  pub finalize-status : (finalize providers r o now).status ≡ verdict providers r o
  unfolding finalize base_updates
  finalize-status =
      let v = verdict providers r o in
      (rejection_updates-SameVerdict _ o _).status
      ∙ badge_updates-status v o _
      ∙ success_updates-status v o _ now

  pub finalize-transport : (finalize providers r o now).transport ≡ r.transport
  unfolding finalize base_updates
  finalize-transport =
      let v = verdict providers r o in
      (rejection_updates-SameVerdict _ o _).transport
      ∙ badge_updates-transport v o _
      ∙ success_updates-transport v o _ now

  pub finalize-attempts :
      ((finalize providers r o now).attempts_completed ≡ attempts_completed_for r o)
      × ((finalize providers r o now).attempts_planned ≡ attempts_planned_for r o)
  unfolding finalize base_updates
  finalize-attempts =
      let v = verdict providers r o in
      (
        (rejection_updates-SameVerdict _ o _).attempts_completed
            ∙ (badge_updates-attempts v o _).0
            ∙ (success_updates-attempts v o _ now).0,
        (rejection_updates-SameVerdict _ o _).attempts_planned
            ∙ (badge_updates-attempts v o _).1
            ∙ (success_updates-attempts v o _ now).1,
      )

  pub finalize-badge : (finalize providers r o now).verified_badge ≡ (
      if is_success o.kind
      then badge_earned (verdict providers r o) o || r.verified_badge
      else false)
  unfolding finalize base_updates
  finalize-badge =
      let v = verdict providers r o in
      (rejection_updates-SameVerdict _ o _).verified_badge
      ∙ badge_updates-badge v o _
      ∙ ap (λ b. if is_success o.kind then badge_earned v o || b else false)
          (success_updates-badge v o _ now)

  module _ (connected : is_success o.kind ≡ true) where
    pub finalize-invocation :
        (finalize providers r o now).invocation_verified ≡ any call_succeeded o.tool_outcomes
    unfolding finalize
    finalize-invocation =
        let v = verdict providers r o in
        (rejection_updates-SameVerdict _ o _).invocation_verified
        ∙ badge_updates-invocation v o _
        ∙ success_updates-invocation v o _ now connected

    pub finalize-ttl : (finalize providers r o now).ttl_expires_at ≡ (
        if is_verified (verdict providers r o)
        then some (now + ttl_days_for r.transport * microseconds_per_day)
        else none)
    unfolding finalize base_updates
    finalize-ttl =
        let v = verdict providers r o in
        (rejection_updates-SameVerdict _ o _).ttl_expires_at
        ∙ badge_updates-ttl v o _
        ∙ success_updates-ttl v o _ now connected

    pub finalize-via :
        badge_earned (verdict providers r o) o ≡ true
        → (finalize providers r o now).verified_via_auth ≡ o.auth_exercised
    unfolding finalize
    finalize-via earned =
        let v = verdict providers r o in
        (rejection_updates-SameVerdict _ o _).verified_via_auth
        ∙ badge_updates-via v o _ connected earned
