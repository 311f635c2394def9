-- ===== src/Verification/Exercise/Readonly.antt =====
-- What is called with credentials, and what a success among the outcomes of a run stands for.
use discovery_application.Base.{
  ℕ, ◌≡◌, ◌≤◌, refl, arith, String, Bool, true, Option, none, List, [], ◌∷◌, any, All, In, All-mono,
  keep, take, keep_sound, take_sound, length, length-take-le,
}
use discovery_application.Verification.Models.{Tool, ToolOutcome, StageResult}
use discovery_application.Verification.Checks.{call_succeeded}
use discovery_application.Verification.Judge.{Fields}
use discovery_application.Verification.Timeouts.{is_readonly_tool}
use discovery_application.Verification.Invocation.{
  Reply, InvokeResult, LanguageModel, call_each, local_call, remote_call, max_tools_invoked,
}
use discovery_application.Verification.Exercise.{
  LocalProbe, invocable, exercise_remote_tools, exercise_local_tools, probe_first_remote,
}
use discovery_application.Verification.Exercise.Calls.{
  HasAnswered, call_each-In, call_each-le, call_each-HasAnswered, remote_call-IsSettling,
  local_call-IsSettling,
}

-- What is called with credentials.
pub IsReadonlyCall : List Tool → ToolOutcome → Type 0
IsReadonlyCall tools o =
    (t : Tool) × In t tools
    × (o.tool_name ≡ t.name)
    × (is_readonly_tool t.name t.description ≡ true)

module _ (clock : ℕ → ℕ) (dumps : Fields → String) (model : Option LanguageModel)
    (invoke : ℕ → Tool → Reply InvokeResult) where
  invocable-readonly :
      (tools : List Tool) (t : Tool)
      → In t (invocable true tools)
      → In t tools × (is_readonly_tool t.name t.description ≡ true)
  unfolding invocable
  invocable-readonly tools t i =
      let (good, j) = keep_sound _ tools t (take_sound max_tools_invoked _ t i) in (j, good)

  probe_none :
      (probe : Tool → Reply InvokeResult) (tools : List Tool) (stages : List StageResult)
      → (probe_first_remote clock dumps model invoke true probe tools stages).0 ≡ none
  unfolding probe_first_remote
  probe_none probe [] stages = refl
  probe_none probe (t ∷ ts) stages = refl

  -- With credentials attached at most five tools are called, each of which looks read-only, and no
  -- malformed input is sent.
  pub exercise_remote_tools-readonly :
      (probe : Tool → Reply InvokeResult) (tools : List Tool) (stages : List StageResult)
      → (length
            (exercise_remote_tools clock dumps model invoke true probe tools stages).tool_outcomes
          ≤ max_tools_invoked)
        × All
            (IsReadonlyCall tools)
            (exercise_remote_tools clock dumps model invoke true probe tools stages).tool_outcomes
        × ((exercise_remote_tools clock dumps model invoke true probe tools
              stages).malformed_graceful
            ≡ none)
  unfolding exercise_remote_tools IsReadonlyCall invocable
  exercise_remote_tools-readonly probe tools stages =
      let settle = remote_call dumps model in
      let chosen = invocable true tools in
      (
        omega (
          arith,
          call_each-le settle (remote_call-IsSettling dumps model) invoke 0 chosen,
          length-take-le max_tools_invoked
              (keep (λ t. is_readonly_tool t.name t.description) tools),
        ),
        All-mono _ (IsReadonlyCall tools) (call_each settle invoke 0 chosen)
            (λ o (t, i, same). let (j, good) = invocable-readonly tools t i in (t, j, same, good))
            (call_each-In settle (remote_call-IsSettling dumps model) invoke 0 chosen),
        probe_none probe tools _,
      )

  -- A success among the outcomes stands for an answer of the server.
  pub exercise_remote_tools-HasAnswered :
      (has_token : Bool) (probe : Tool → Reply InvokeResult) (tools : List Tool)
      (stages : List StageResult)
      → any call_succeeded
          (exercise_remote_tools clock dumps model invoke has_token probe tools
            stages).tool_outcomes
        ≡ true
      → HasAnswered invoke
  unfolding exercise_remote_tools
  exercise_remote_tools-HasAnswered has_token probe tools stages h =
      call_each-HasAnswered (remote_call dumps model) (remote_call-IsSettling dumps model) invoke 0
        (invocable has_token tools) h

  pub exercise_local_tools-HasAnswered :
      (probe : Tool → LocalProbe) (tools : List Tool) (stages : List StageResult)
      → any call_succeeded
          (exercise_local_tools clock dumps model invoke probe tools stages).tool_outcomes
        ≡ true
      → HasAnswered invoke
  unfolding exercise_local_tools
  exercise_local_tools-HasAnswered probe tools stages h =
      call_each-HasAnswered (local_call dumps model) (local_call-IsSettling dumps model) invoke 0
        (take max_tools_invoked tools) h
