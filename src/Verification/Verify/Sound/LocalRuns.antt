-- ===== src/Verification/Verify/Sound/LocalRuns.antt =====
-- Runs on local servers are sound.
use discovery_application.Base.{refl, inl, String, none, some, List, [], ◌∷◌, on_some_ind, if_ind}
use discovery_application.Verification.Models.{McpServerRecord, StageResult}
use discovery_application.Verification.Checks.{AttemptOutcome}
use discovery_application.Verification.Install.{LocalToolConfig, local_tool_config}
use discovery_application.Verification.Invocation.{Reply, answered, timed_out, raised}
use discovery_application.Verification.Exercise.Readonly.{exercise_local_tools-HasAnswered}
use discovery_application.Verification.Local.{
  ConnectResult, ContainerSession, verify_local, on_config, on_installed, on_connected, run_crashed,
  greeted, cleanup, Action, installed,
}
use discovery_application.Verification.Verify.{Environment}
use discovery_application.Verification.Verify.Sound.{IsSound, failure-IsSound}

module _ (env : Environment) where
  run_crashed-IsSound :
      (message : String) (stages : List StageResult)
      → IsSound env
          (run_crashed env.clock env.dumps env.model env.repr env.local_run message stages)
  unfolding run_crashed
  run_crashed-IsSound message stages = failure-IsSound env _ _ _ _

  on_connected-IsSound :
      (c : ConnectResult) (stages : List StageResult)
      → IsSound env (on_connected env.clock env.dumps env.model env.repr env.local_run c stages)
  unfolding on_connected
  on_connected-IsSound c stages =
      if_ind (IsSound env) c.connected
        (λ _. record {
          coherent = inl refl;
          was_answered = λ h. inl (
              exercise_local_tools-HasAnswered env.clock env.dumps env.model env.local_run.invoke
                env.local_run.probe c.tools (greeted env.clock "initialized: " c stages) h);
          readonly = λ h. cc h;
        })
        (λ _. failure-IsSound env _ _ _ _)

  connect-IsSound :
      (stages : List StageResult) (reply : Reply ConnectResult)
      → IsSound env (elim reply [
        | answered c ↦ on_connected env.clock env.dumps env.model env.repr env.local_run c stages
        | timed_out m ↦ run_crashed env.clock env.dumps env.model env.repr env.local_run m stages
        | raised m ↦ run_crashed env.clock env.dumps env.model env.repr env.local_run m stages
      ])
  connect-IsSound stages (answered c) = on_connected-IsSound c stages
  connect-IsSound stages (timed_out m) = run_crashed-IsSound m stages
  connect-IsSound stages (raised m) = run_crashed-IsSound m stages

  on_installed-IsSound :
      (config : LocalToolConfig) (session : ContainerSession)
      → IsSound env
          (on_installed env.clock env.dumps env.model env.repr env.local_run config session)
  unfolding on_installed
  on_installed-IsSound config session =
      connect-IsSound (installed env.clock session) (env.local_run.connect config session)

  create-IsSound :
      (config : LocalToolConfig) (reply : Reply ContainerSession)
      → IsSound env (
          let pair : AttemptOutcome × List Action = elim reply [
            | answered s ↦ (
              on_installed env.clock env.dumps env.model env.repr env.local_run config s,
              Action.created s.session_id ∷ cleanup env.local_run (some s),
            )
            | timed_out m ↦ (
              run_crashed env.clock env.dumps env.model env.repr env.local_run m [],
              cleanup env.local_run none,
            )
            | raised m ↦ (
              run_crashed env.clock env.dumps env.model env.repr env.local_run m [],
              cleanup env.local_run none,
            )
          ] in
          pair.0)
  create-IsSound config (answered s) = on_installed-IsSound config s
  create-IsSound config (timed_out m) = run_crashed-IsSound m []
  create-IsSound config (raised m) = run_crashed-IsSound m []

  on_config-IsSound :
      (config : LocalToolConfig)
      → IsSound env (on_config env.clock env.dumps env.model env.repr env.local_run config).0
  unfolding on_config
  on_config-IsSound config = create-IsSound config (env.local_run.create_container config)

  pub verify_local-IsSound :
      (r : McpServerRecord)
      → IsSound env (verify_local env.clock env.dumps env.model env.repr env.local_run r).0
  unfolding verify_local
  verify_local-IsSound r =
      on_some_ind (λ (done : AttemptOutcome × List Action). IsSound env done.0)
        (local_tool_config r.install_cmd) (λ config _. on_config-IsSound config)
        (λ _. failure-IsSound env _ _ _ _)
