-- ===== src/Verification/Local.antt =====
-- A run on a local server, `_verify_local` of platform/backend/app/verification/verifiers.py. What
-- the container manager and the client answer is a parameter, and so is `repr`.
pub mod Released
use Prim.Native.String.{◌++◌ as str_append}
use discovery_application.Base.{
  ℕ, ◌*◌, String, Bool, true, false, Option, none, some, List, [], ◌∷◌, ◌++◌, length, str_eq,
  on_some, if◌then◌else◌, is_empty, take_chars, decimal,
}
use discovery_application.Verification.Models.{
  Tool, StageResult, VerificationStage, StageOutcomeKind, McpServerRecord, success, transport_fail,
  auth_required, protocol_fail,
}
use discovery_application.Verification.Checks.{AttemptOutcome}
use discovery_application.Verification.Install.{LocalToolConfig, local_tool_config}
use discovery_application.Verification.Judge.{Fields}
use discovery_application.Verification.Invocation.{
  Reply, answered, timed_out, raised, InvokeResult, LanguageModel, Exercise, note,
}
use discovery_application.Verification.Exercise.{LocalProbe, exercise_local_tools}

-- The fields of a connect result that the verifiers read; `server_info` as it is printed.
pub record ConnectResult : Type 0 where
  pub connected : Bool
  pub auth_required : Bool
  pub auth_reason : Option String
  pub user_message : Option String
  pub error : Option String
  pub server_info : String
  pub tools : List Tool

pub record ContainerSession : Type 0 where
  pub session_id : String
  pub image : String
  pub container_id : String

-- What happens to containers and the client, in order; a failure of the last two is passed over or
-- logged.
pub data Action : Type 0 where
  created : String → Action
  disconnected disconnect_failed : Action
  destroyed destroy_failed : String → Action

pub record LocalRun : Type 0 where
  pub create_container : LocalToolConfig → Reply ContainerSession
  pub connect : LocalToolConfig → ContainerSession → Reply ConnectResult
  pub connect_latency_ms : ℕ
  pub invoke : ℕ → Tool → Reply InvokeResult
  pub probe : Tool → LocalProbe
  pub disconnect : Reply (Unit {0})
  pub destroy_container : String → Reply (Unit {0})

-- `a or b` on texts that may be None.
abbrev pub first_text : Option String → Option String → Option String
first_text none b = b
first_text (some a) b = if is_empty a then b else some a

abbrev pub is_reason : String → Option String → Bool
is_reason reason none = false
is_reason reason (some r) = str_eq r reason

abbrev pub failure : StageOutcomeKind → Option String → Option ℕ → List StageResult → AttemptOutcome
failure kind detail latency stages = record {
  kind = kind;
  detail = detail;
  tools = [];
  connect_latency_ms = latency;
  tool_outcomes = [];
  malformed_graceful = none;
  security_flagged = false;
  stage_results = stages;
  auth_exercised = false;
}

abbrev pub exercised_outcome : List Tool → ℕ → Bool → Exercise → AttemptOutcome
exercised_outcome tools latency auth_exercised e = record {
  kind = success;
  detail = none;
  tools = tools;
  connect_latency_ms = some latency;
  tool_outcomes = e.tool_outcomes;
  malformed_graceful = e.malformed_graceful;
  security_flagged = e.security_flagged;
  stage_results = e.stage_results;
  auth_exercised = auth_exercised;
}

abbrev pub tools_declared : List Tool → String
tools_declared tools = str_append (decimal (length tools)) " tools declared"

-- The stages of a handshake that was answered with a list of tools.
abbrev pub greeted : (ℕ → ℕ) → String → ConnectResult → List StageResult → List StageResult
greeted clock greeting c stages =
    note clock VerificationStage.tools_list success (some (tools_declared c.tools)) (
      note clock VerificationStage.handshake success (some (str_append greeting c.server_info))
        stages)

abbrev pub installed : (ℕ → ℕ) → ContainerSession → List StageResult
installed clock session =
    note clock VerificationStage.install success
      (some (str_append "sandbox " (str_append session.image " ready"))) []

abbrev pub disconnect_action : Reply (Unit {0}) → Action
disconnect_action (answered _) = Action.disconnected
disconnect_action (timed_out message) = Action.disconnect_failed
disconnect_action (raised message) = Action.disconnect_failed

abbrev pub destroy_action : String → Reply (Unit {0}) → Action
destroy_action id (answered _) = Action.destroyed id
destroy_action id (timed_out message) = Action.destroy_failed id
destroy_action id (raised message) = Action.destroy_failed id

-- The `finally` block.
unfoldable pub cleanup : LocalRun → Option ContainerSession → List Action
cleanup run none = disconnect_action run.disconnect ∷ []
cleanup run (some session) =
    disconnect_action run.disconnect
    ∷ destroy_action session.session_id (run.destroy_container session.session_id)
    ∷ []

module _ (clock : ℕ → ℕ) (dumps : Fields → String) (model : Option LanguageModel)
    (repr : Option String → String) (run : LocalRun) where
  -- `except Exception as exc`.
  unfoldable pub run_crashed : String → List StageResult → AttemptOutcome
  unfolding note
  run_crashed message stages =
      failure transport_fail (some (take_chars 300 message)) none
        (note clock VerificationStage.install transport_fail (some (take_chars 300 message)) stages)

  -- After the client answered.
  unfoldable pub on_connected : ConnectResult → List StageResult → AttemptOutcome
  unfolding note exercise_local_tools
  on_connected c stages =
      let kind = if is_reason "unauthorized" c.auth_reason then auth_required else protocol_fail in
      if c.connected
      then exercised_outcome c.tools run.connect_latency_ms false (
          exercise_local_tools clock dumps model run.invoke run.probe c.tools
            (greeted clock "initialized: " c stages))
      else failure kind c.error (some run.connect_latency_ms)
          (note clock VerificationStage.handshake kind (first_text c.user_message c.error) stages)

  unfoldable pub on_installed : LocalToolConfig → ContainerSession → AttemptOutcome
  unfolding on_connected run_crashed note
  on_installed config session = elim (run.connect config session) [
    | answered c ↦ on_connected c (installed clock session)
    | timed_out message ↦ run_crashed message (installed clock session)
    | raised message ↦ run_crashed message (installed clock session)
  ]

  -- The outcome with what was done to containers and the client.
  unfoldable pub on_config : LocalToolConfig → AttemptOutcome × List Action
  unfolding on_installed run_crashed cleanup
  on_config config = elim (run.create_container config) [
    | answered session ↦ (
      on_installed config session,
      Action.created session.session_id ∷ cleanup run (some session),
    )
    | timed_out message ↦ (run_crashed message [], cleanup run none)
    | raised message ↦ (run_crashed message [], cleanup run none)
  ]

  -- `_verify_local`.
  unfoldable pub verify_local : McpServerRecord → AttemptOutcome × List Action
  unfolding on_config
  verify_local r = on_some (local_tool_config r.install_cmd) on_config (
    failure StageOutcomeKind.malformed (some "install command unparseable") none (
        note clock VerificationStage.install StageOutcomeKind.malformed
          (some (str_append "unparseable install command: " (repr r.install_cmd))) []),
    [],
  )
