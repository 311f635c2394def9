-- ===== src/Verification/Verify.antt =====
-- One verification of a server, `VerificationPipeline.verify` of
-- platform/backend/app/verification/verifiers.py: the run for its transport, then the verdict.
pub mod Sound
pub mod Outcomes
pub mod Rejections
use discovery_application.Base.{ℕ, String, Bool, Option, none, some, if◌then◌else◌}
use discovery_application.Verification.Models.{McpServerRecord, is_local}
use discovery_application.Verification.Pipeline.{Providers, finalize}
use discovery_application.Verification.Judge.{Fields}
use discovery_application.Verification.Invocation.{LanguageModel}
use discovery_application.Verification.Local.{LocalRun, verify_local}
use discovery_application.Verification.Remote.{RemoteRun, Ran, stopped, ended, verify_remote}

-- What a run meets.
pub record Environment : Type 0 where
  pub clock : ℕ → ℕ
  pub dumps : Fields → String
  pub model : Option LanguageModel
  pub repr : Option String → String
  pub local_run : LocalRun
  pub remote_run : RemoteRun

unfoldable pub attempt : Environment → McpServerRecord → Providers → Ran
unfolding verify_local verify_remote
attempt env r providers =
    let (o, actions) = verify_local env.clock env.dumps env.model env.repr env.local_run r in
    if is_local r.transport
    then ended r o providers
    else verify_remote env.clock env.dumps env.model env.remote_run r providers

-- The record as written, unless the run raised, and the credential store; `now` is the clock at
-- the verdict.
unfoldable pub verify :
    Environment → McpServerRecord → Providers → ℕ → Option McpServerRecord × Providers
unfolding attempt
verify env r providers now = elim (attempt env r providers) [
  | stopped message providers' ↦ (none, providers')
  | ended r' o providers' ↦ (some (finalize providers' r' o now), providers')
]
