-- ===== src/Tests/Verify.antt =====
-- Whole verifications of concrete servers.
use discovery_application.Base.{
  ◌≡◌, ◌↔◌, ◌≤◌, refl, arith, String, true, false, none, some, [], ◌∷◌, length, All, take_chars,
  digits_on, decimal, join,
}
use discovery_application.Verification.Models.{McpServerRecord, ServerStatus, Transport, Tool, at}
use discovery_application.Verification.Pipeline.{ProviderCredentialRecord, Providers, finalize}
use discovery_application.Verification.Judge.{
  Json, Fields, extract_text, heuristic_judge, llm_judge, no_fields, item, no_items, field,
}
use discovery_application.Verification.Judge.Heuristic
use discovery_application.Verification.Judge.Heuristic.{IsPlausible}
use discovery_application.Verification.Timeouts.{effective_timeout_s, tool_policy, is_readonly_tool}
use discovery_application.Verification.Invocation.{
  answered, timed_out, raised, InvokeResult, call_returned, call_raised, call_overdue, call_each,
  judge_output, note, local_call, remote_call,
}
use discovery_application.Verification.Exercise.{
  local_probe, remote_probe, probe_first_local, probe_first_remote, invocable, exercise_local_tools,
  exercise_remote_tools,
}
use discovery_application.Verification.Credentials.{
  update_provider, rotated, token_expired, refresh_provider_credential, token_of,
  credential_token_for, flag_provider_reauth,
}
use discovery_application.Verification.Local.{
  ConnectResult, ContainerSession, LocalRun, cleanup, run_crashed, on_connected, on_installed,
  on_config, verify_local,
}
use discovery_application.Verification.Remote.{
  RemoteRun, scope_rejected, asks_for_credentials, sees_nothing, refine_auth_metadata,
  exercise_connected, retry_with_token, structural_only, handle_remote_auth, on_answer,
  verify_remote,
}
use discovery_application.Verification.Verify.{Environment, attempt, verify}
use discovery_application.Verification.Verify.Outcomes
use discovery_application.Verification.Verify.Outcomes.{Answered}
use discovery_application.Verification.Verify.Rejections
use discovery_application.Verification.Exercise.Readonly
use discovery_application.Verification.Exercise.Readonly.{IsReadonlyCall}
use discovery_application.Verification.Credentials.Usable
use discovery_application.Verification.Credentials.Usable.{IsUsable}
use discovery_application.Verification.Local.Released
use discovery_application.Tests.Samples.{server}
use discovery_application.Tests.Pipeline.{pipeline}
use discovery_application.Tests.Install.{install}

unfoldable pub drivers : Unit {0}
unfolding pipeline install take_chars digits_on decimal join extract_text heuristic_judge llm_judge
    effective_timeout_s tool_policy is_readonly_tool call_returned call_raised call_overdue
    call_each judge_output note local_call remote_call local_probe remote_probe probe_first_local
    probe_first_remote invocable exercise_local_tools exercise_remote_tools update_provider rotated
    token_expired refresh_provider_credential token_of credential_token_for flag_provider_reauth
    cleanup run_crashed on_connected on_installed on_config verify_local scope_rejected
    asks_for_credentials sees_nothing refine_auth_metadata exercise_connected retry_with_token
    structural_only handle_remote_auth on_answer verify_remote attempt verify
drivers = tt

abbrev lister : Tool
lister = record { name = "list_items"; description = some "Lists items." }

abbrev remover : Tool
remover = record { name = "delete_item"; description = some "Deletes an item." }

-- The content block of a result with one text.
abbrev block : String → Json
block s = Json.object (
    field "content"
      (Json.array (item (Json.object (field "text" (Json.text s) no_fields)) no_items)) no_fields)

abbrev result : String → String → InvokeResult
result status s = record {
  status = status;
  result = block s;
  error = none;
  duration_ms = 120;
  auth_reason = none;
}

abbrev welcome : ConnectResult
welcome = record {
  connected = true;
  auth_required = false;
  auth_reason = none;
  user_message = none;
  error = none;
  server_info = "{}";
  tools = lister ∷ remover ∷ [];
}

abbrev locked : ConnectResult
locked = record welcome { connected = false; auth_required = true; tools = [] }

abbrev narrow : ConnectResult
narrow = record locked { error = some "insufficient scope" }

abbrev session : ContainerSession
session = record { session_id = "s1"; image = "node:20"; container_id = "c1" }

abbrev good_run : LocalRun
good_run = record {
  create_container = λ config. answered session;
  connect = λ config s. answered welcome;
  connect_latency_ms = 40;
  invoke = λ n t. answered (result "success" "3 items: a, b, c");
  probe = λ t. record {
    before_alive = true;
    still_alive = true;
    reply = answered (result "error" "bad argument");
  };
  disconnect = answered tt;
  destroy_container = λ id. answered tt;
}

abbrev late_run : LocalRun
late_run = record good_run { create_container = λ config. timed_out "docker" }

abbrev guarded_run : RemoteRun
guarded_run = record {
  connect = λ token. answered locked;
  reconnect = λ token. answered narrow;
  connect_latency_ms = 40;
  invoke = λ token n t. answered (result "success" "3 items: a, b, c");
  probe = λ t. raised "reset";
  grant_types = λ endpoint. none;
  refresh = λ c. none;
  now = 100;
  refresh_again = λ c. none;
  later = 101;
}

abbrev dump : Fields → String
dump fs = "{}"

abbrev world : LocalRun → Environment
world run = record {
  clock = λ n. n;
  dumps = dump;
  model = none;
  repr = λ s. "None";
  local_run = run;
  remote_run = guarded_run;
}

abbrev pub here : McpServerRecord
here = record (server "a") { transport = Transport.local; install_cmd = some "npx -y tool" }

abbrev there : McpServerRecord
there = record (server "b") { oauth_provider = some "github"; attempts_completed = 2 }

abbrev credential : ProviderCredentialRecord
credential = record {
  provider = "github";
  client_id = "id";
  client_secret = none;
  token_endpoint = some "https://github.com/token";
  access_token = some "t0";
  refresh_token = some "r0";
  token_expires_at = some (at 500);
  status = "active";
}

abbrev wallet : Providers
wallet = some (λ p. some credential)

abbrev found : McpServerRecord
found =
    finalize none here
      (verify_local (world good_run).clock dump none (world good_run).repr good_run here).0 7

plausible :
    ((heuristic_judge dump "list_items" (block "3 items: a, b, c")).valid ≡ true)
    × ((heuristic_judge dump "list_items" (block "TODO")).valid ≡ false)
    × ((heuristic_judge dump "list_items" (block "  ")).valid ≡ false)
    × ((heuristic_judge dump "list_items" (block "Rate limit hit")).confidence ≡ 80)
unfolding drivers
plausible = (refl, refl, refl, refl)

budgets :
    (effective_timeout_s (tool_policy "get_user") ≡ 60)
    × (effective_timeout_s (tool_policy "generate_report") ≡ 90)
    × (effective_timeout_s (tool_policy "get_report") ≡ 75)
unfolding drivers
budgets = (refl, refl, refl)

-- The prefix of a reading tool counts before the words of a writing one.
prefixes :
    (is_readonly_tool "get_and_delete" none ≡ true) × (is_readonly_tool "delete_item" none ≡ false)
unfolding drivers
prefixes = (refl, refl)

verify-verified_example :
    Answered (world good_run) × (found.verified_badge ≡ true) × (found.invocation_verified ≡ true)
unfolding drivers
verify-verified_example = Outcomes.verify-verified (world good_run) here none 7 found refl refl

verify-out_of_scope_example :
    (v : McpServerRecord) × ((verify (world good_run) there wallet 7).0 ≡ some v)
    × (v.status ≡ ServerStatus.rejected)
unfolding drivers
verify-out_of_scope_example =
    Rejections.verify-out_of_scope (world good_run) there wallet 7 locked narrow "t0" refl
      (omega arith) refl refl refl refl refl refl

exercise_remote_tools-readonly_example :
    (length
        (exercise_remote_tools
          (λ n. n)
          dump
          none
          (guarded_run.invoke none)
          true
          guarded_run.probe
          welcome.tools
          []).tool_outcomes
      ≤ 5)
    × All
        (IsReadonlyCall welcome.tools)
        (exercise_remote_tools
          (λ n. n)
          dump
          none
          (guarded_run.invoke none)
          true
          guarded_run.probe
          welcome.tools
          []).tool_outcomes
    × ((exercise_remote_tools
          (λ n. n)
          dump
          none
          (guarded_run.invoke none)
          true
          guarded_run.probe
          welcome.tools
          []).malformed_graceful
        ≡ none)
exercise_remote_tools-readonly_example =
    Readonly.exercise_remote_tools-readonly (λ n. n) dump none (guarded_run.invoke none)
      guarded_run.probe welcome.tools []

credential_token_for-IsUsable_example : IsUsable guarded_run.refresh 100 there wallet "t0"
unfolding drivers
credential_token_for-IsUsable_example =
    Usable.credential_token_for-IsUsable guarded_run.refresh 100 there wallet "t0" refl

heuristic_judge-valid_iff_example :
    ((heuristic_judge dump "list_items" (block "TODO")).valid ≡ true)
    ↔ IsPlausible dump (block "TODO")
heuristic_judge-valid_iff_example =
    Heuristic.heuristic_judge-valid_iff dump "list_items" (block "TODO")
