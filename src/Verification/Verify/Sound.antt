-- ===== src/Verification/Verify/Sound.antt =====
-- What every run keeps, whatever the server, the network and the container manager do.
pub mod LocalRuns
pub mod RemoteRuns
use discovery_application.Base.{
  ℕ, ◌≡◌, refl, sym, ◌∙◌, inl, inr, ◌⊎◌, String, Bool, true, false, Option, none, some, List, [],
  any, All, is_some, subst, on_some_ind, if_ind, Bool-cases, if◌then◌else◌,
}
use discovery_application.Verification.Models.{
  McpServerRecord, StageOutcomeKind, StageResult, ToolOutcome, is_local,
}
use discovery_application.Verification.Checks.{AttemptOutcome, call_succeeded}
use discovery_application.Verification.Pipeline.{Providers}
use discovery_application.Verification.Pipeline.Badge.{IsCoherent}
use discovery_application.Verification.Judge.{Fields}
use discovery_application.Verification.Install.{LocalToolConfig, local_tool_config}
use discovery_application.Verification.Invocation.{
  LanguageModel, Reply, answered, timed_out, raised,
}
use discovery_application.Verification.Exercise.{exercise_remote_tools, exercise_local_tools}
use discovery_application.Verification.Exercise.Calls.{HasAnswered}
use discovery_application.Verification.Exercise.Readonly.{
  IsReadonlyCall, exercise_remote_tools-readonly, exercise_remote_tools-HasAnswered,
  exercise_local_tools-HasAnswered,
}
use discovery_application.Verification.Local.{
  LocalRun, ConnectResult, ContainerSession, verify_local, on_config, on_installed, on_connected,
  run_crashed, failure, greeted, cleanup, Action, installed,
}
use discovery_application.Verification.Remote.{
  RemoteRun, Ran, stopped, ended, verify_remote, on_answer, handle_remote_auth, structural_only,
  retry_with_token, exercise_connected,
}
use discovery_application.Verification.Verify.{Environment, attempt}

-- A run lists calls only if it connected, a successful call is one that the server answered, and
-- a run with credentials called only tools that look read-only.
pub record IsSound (env : Environment) (o : AttemptOutcome) : Type 0 where
  pub coherent : IsCoherent o
  pub was_answered :
      any call_succeeded o.tool_outcomes ≡ true
      → HasAnswered env.local_run.invoke
        ⊎ ((token : Option String) × HasAnswered (env.remote_run.invoke token))
  pub readonly : o.auth_exercised ≡ true → All (IsReadonlyCall o.tools) o.tool_outcomes

-- What holds of the record and the outcome of a run that ended.
unfoldable pub EndsWith : (McpServerRecord → AttemptOutcome → Type 0) → Ran → Type 0
EndsWith P (stopped message providers) = Unit {0}
EndsWith P (ended r o providers) = P r o

module _ (P : McpServerRecord → AttemptOutcome → Type 0) where
  pub ended-EndsWith :
      (r : McpServerRecord) (o : AttemptOutcome) (providers : Providers)
      → P r o
      → EndsWith P (ended r o providers)
  unfolding EndsWith
  ended-EndsWith r o providers h = h

  -- A connect that raised ends nothing.
  pub answer-EndsWith :
      (next : ConnectResult → Ran) (providers : Providers) (reply : Reply ConnectResult)
      → ((c : ConnectResult) → EndsWith P (next c))
      → EndsWith P (elim reply [
        | answered c ↦ next c
        | timed_out message ↦ stopped message providers
        | raised message ↦ stopped message providers
      ])
  unfolding EndsWith
  answer-EndsWith next providers (answered c) h = h c
  answer-EndsWith next providers (timed_out m) h = tt
  answer-EndsWith next providers (raised m) h = tt

module _ (env : Environment) where
  pub failure-IsSound :
      (kind : StageOutcomeKind) (detail : Option String) (latency : Option ℕ)
      (stages : List StageResult)
      → IsSound env (failure kind detail latency stages)
  failure-IsSound kind detail latency stages = record {
    coherent = inr refl;
    was_answered = λ h. cc;
    readonly = λ h. cc;
  }
