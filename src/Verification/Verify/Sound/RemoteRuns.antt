-- ===== src/Verification/Verify/Sound/RemoteRuns.antt =====
-- Runs on remote servers are sound, and so is every run.
use discovery_application.Base.{
  ℕ, ◌≡◌, refl, sym, inl, inr, String, Bool, true, not, Option, some, List, [], All, is_some, subst,
  on_some_ind, if_ind,
}
use discovery_application.Verification.Models.{
  McpServerRecord, StageOutcomeKind, StageResult, is_local,
}
use discovery_application.Verification.Checks.{AttemptOutcome}
use discovery_application.Verification.Pipeline.{Providers}
use discovery_application.Verification.Exercise.{exercise_remote_tools}
use discovery_application.Verification.Exercise.Readonly.{
  IsReadonlyCall, exercise_remote_tools-readonly, exercise_remote_tools-HasAnswered,
}
use discovery_application.Verification.Local.{ConnectResult, failure, greeted}
use discovery_application.Verification.Remote.{
  ended, verify_remote, on_answer, scope_rejected, asks_for_credentials, sees_nothing,
  handle_remote_auth, structural_only, retry_with_token, exercise_connected, asked,
}
use discovery_application.Verification.Verify.{Environment, attempt}
use discovery_application.Verification.Credentials.{credential_token_for}
use discovery_application.Verification.Verify.Sound.{
  IsSound, EndsWith, ended-EndsWith, answer-EndsWith, failure-IsSound,
}
use discovery_application.Verification.Verify.Sound.LocalRuns.{verify_local-IsSound}

module _ (env : Environment) where
  exercise_connected-IsSound :
      (token : Option String) (exercised : Bool) (greeting : String) (c : ConnectResult)
      (stages : List StageResult)
      → (exercised ≡ true → is_some token ≡ true)
      → IsSound env (
          exercise_connected env.clock env.dumps env.model env.remote_run token exercised greeting c
            stages)
  unfolding exercise_connected
  exercise_connected-IsSound token exercised greeting c stages h =
      let run = env.remote_run in
      let invoke = run.invoke token in
      let stages' = greeted env.clock greeting c stages in
      record {
        coherent = inl refl;
        was_answered = λ called. inr (
          token,
          exercise_remote_tools-HasAnswered env.clock env.dumps env.model invoke (is_some token)
              run.probe c.tools stages' called,
        );
        readonly = λ used.
            subst
              (λ b.
                All (IsReadonlyCall c.tools)
                  (exercise_remote_tools env.clock env.dumps env.model invoke b run.probe c.tools
                    stages').tool_outcomes)
              (sym (h used))
              (exercise_remote_tools-readonly env.clock env.dumps env.model invoke run.probe c.tools
                stages').1;
      }

  abbrev Sound : McpServerRecord → AttemptOutcome → Type 0
  Sound r o = IsSound env o

  settled :
      (r : McpServerRecord) (o : AttemptOutcome) (providers : Providers)
      → IsSound env o
      → EndsWith Sound (ended r o providers)
  settled r o providers h = ended-EndsWith Sound r o providers h

  failed :
      (r : McpServerRecord) (kind : StageOutcomeKind) (detail : Option String) (latency : Option ℕ)
      (stages : List StageResult) (providers : Providers)
      → EndsWith Sound (ended r (failure kind detail latency stages) providers)
  failed r kind detail latency stages providers =
      settled r _ providers (failure-IsSound env kind detail latency stages)

  retry_with_token-IsSound :
      (r : McpServerRecord) (token : String) (c : ConnectResult) (stages : List StageResult)
      (providers : Providers)
      → EndsWith Sound
          (retry_with_token env.clock env.dumps env.model env.remote_run r token c stages providers)
  unfolding retry_with_token
  retry_with_token-IsSound r token c stages providers =
      if_ind (EndsWith Sound) c.connected
        (λ _.
          settled r _ providers (
            exercise_connected-IsSound (some token) true "initialized with auth: " c _ (λ _. refl)))
        (λ _.
          if_ind (EndsWith Sound) (scope_rejected c) (λ _. failed r _ _ _ _ _)
            (λ _. failed r _ _ _ _ _))

  structural_only-IsSound :
      (r : McpServerRecord) (stages : List StageResult) (providers : Providers)
      → EndsWith Sound
          (structural_only env.clock env.dumps env.model env.remote_run r stages providers)
  unfolding structural_only
  structural_only-IsSound r stages providers = failed _ _ _ _ _ _

  handle_remote_auth-IsSound :
      (r : McpServerRecord) (stages : List StageResult) (providers : Providers)
      → EndsWith Sound
          (handle_remote_auth env.clock env.dumps env.model env.remote_run r stages providers)
  unfolding handle_remote_auth
  handle_remote_auth-IsSound r stages providers =
      let found =
        credential_token_for env.remote_run.refresh_again env.remote_run.later r providers in
      on_some_ind (EndsWith Sound) found.0
        (λ token _.
          answer-EndsWith Sound
            (λ c.
              retry_with_token env.clock env.dumps env.model env.remote_run r token c stages
                found.1)
            found.1 (env.remote_run.reconnect (some token))
            (λ c. retry_with_token-IsSound r token c stages found.1))
        (λ _. structural_only-IsSound r stages found.1)

  pub on_answer-IsSound :
      (r : McpServerRecord) (token : Option String) (c : ConnectResult) (providers : Providers)
      → EndsWith Sound (on_answer env.clock env.dumps env.model env.remote_run r token c providers)
  unfolding on_answer
  on_answer-IsSound r token c providers =
      if_ind (EndsWith Sound) (asks_for_credentials c)
        (λ _. handle_remote_auth-IsSound r (asked env.clock c) providers)
        (λ _.
          if_ind (EndsWith Sound) (not c.connected) (λ _. failed r _ _ _ _ _)
            (λ _.
              if_ind (EndsWith Sound) (sees_nothing token c) (λ _. failed r _ _ _ _ _)
                (λ _. settled r _ providers (
                  exercise_connected-IsSound token (is_some token) "initialized: " c [] (λ h. h)))))

  -- Every run that ends is sound, local or remote, with credentials or without.
  pub attempt-IsSound :
      (r : McpServerRecord) (providers : Providers)
      → EndsWith (λ r' o. IsSound env o) (attempt env r providers)
  unfolding attempt verify_remote
  attempt-IsSound r providers =
      let found = credential_token_for env.remote_run.refresh env.remote_run.now r providers in
      if_ind (EndsWith Sound) (is_local r.transport)
        (λ _. settled r _ providers (verify_local-IsSound env r))
        (λ _.
          answer-EndsWith Sound
            (λ c. on_answer env.clock env.dumps env.model env.remote_run r found.0 c found.1)
            found.1 (env.remote_run.connect found.0) (λ c. on_answer-IsSound r found.0 c found.1))
