-- ===== src/Verification/Verify/Outcomes.antt =====
-- What a verification writes: the end of `verify` over every run.
use discovery_application.Base.{ℕ, ◌≡◌, ◌⊎◌, String, true, Option, none, some, sym, ap, ◌∙◌}
use discovery_application.Verification.Models.{McpServerRecord, ServerStatus}
use discovery_application.Verification.Pipeline.{Providers, finalize}
use discovery_application.Verification.Pipeline.Badge.{finalize-verified}
use discovery_application.Verification.Exercise.Calls.{HasAnswered}
use discovery_application.Verification.Remote.{Ran, stopped, ended}
use discovery_application.Verification.Verify.{Environment, attempt, verify}
use discovery_application.Verification.Verify.Sound.{IsSound, EndsWith}
use discovery_application.Verification.Verify.Sound.RemoteRuns.{attempt-IsSound}

-- The server, local or remote, answered a call of a tool with success.
pub Answered : Environment → Type 0
Answered env =
    HasAnswered env.local_run.invoke
    ⊎ ((token : Option String) × HasAnswered (env.remote_run.invoke token))

abbrev HasBadge : Environment → McpServerRecord → Type 0
HasBadge env v = Answered env × (v.verified_badge ≡ true) × (v.invocation_verified ≡ true)

module _ (env : Environment) (now : ℕ) where
  abbrev pub written : Ran → Option McpServerRecord × Providers
  written (stopped message providers) = (none, providers)
  written (ended r o providers) = (some (finalize providers r o now), providers)

  unsome {ℓ} : {A : Type ℓ} {a b : A} → some a ≡ some b → a ≡ b
  unsome e = cc e

  written-verified :
      (ran : Ran) (v : McpServerRecord)
      → EndsWith (λ r o. IsSound env o) ran
      → (written ran).0 ≡ some v
      → v.status ≡ ServerStatus.verified
      → HasBadge env v
  unfolding EndsWith Answered
  written-verified (stopped message providers) v sound e h = cc e
  written-verified (ended r o providers) v sound e h =
      let same : finalize providers r o now ≡ v = unsome e in
      let (connected, called, badge, via, invoked, ttl) =
        finalize-verified providers r o now sound.coherent (ap (λ s. s.status) same ∙ h) in
      (
        sound.was_answered called,
        sym (ap (λ s. s.verified_badge) same) ∙ badge,
        sym (ap (λ s. s.invocation_verified) same) ∙ invoked,
      )

-- Whatever a server, the network and the container manager do: a verification that leaves the
-- server `verified` got an answer of a tool call that says success, and awards the badge.
pub verify-verified :
    (env : Environment) (r : McpServerRecord) (providers : Providers) (now : ℕ)
    (v : McpServerRecord)
    → (verify env r providers now).0 ≡ some v
    → v.status ≡ ServerStatus.verified
    → Answered env × (v.verified_badge ≡ true) × (v.invocation_verified ≡ true)
unfolding verify
verify-verified env r providers now v e h =
    written-verified env now (attempt env r providers) v (attempt-IsSound env r providers) e h
