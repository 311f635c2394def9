-- ===== src/Verification/Timeouts.antt =====
-- Budgets of a tool call and the detection of read-only tools:
-- platform/backend/app/verification/timeout_policy.py. A time is in whole seconds.
pub mod Budgets
use text.Mathlib.Text.{starts_with}
use discovery_application.Base.{
  ℕ, ◌+◌, ◌-◌, min, max, String, Bool, true, false, Option, none, some, List, [], ◌∷◌, any,
  if◌then◌else◌, lower, contains, strip, is_empty,
}

abbrev pub handshake_timeout_s : ℕ
handshake_timeout_s = 15

abbrev pub tool_invocation_timeout_s : ℕ
tool_invocation_timeout_s = 75

abbrev pub hard_kill_timeout_s : ℕ
hard_kill_timeout_s = 180

abbrev pub handshake_attempts : ℕ
handshake_attempts = 2

abbrev pub tool_invocation_attempts : ℕ
tool_invocation_attempts = 3

pub record ToolTimeoutPolicy : Type 0 where
  pub tool_name : String
  pub base_timeout_s : ℕ
  pub attempts : ℕ
  pub hard_kill_s : ℕ

abbrev pub heavy_words : List String
heavy_words =
    "report" ∷ "export" ∷ "generate" ∷ "scrape" ∷ "crawl" ∷ "render" ∷ "analyze" ∷ "bulk" ∷ "sync"
    ∷ []

abbrev pub trivial_prefixes : List String
trivial_prefixes = "get_" ∷ "is_" ∷ "ping" ∷ "health" ∷ "list" ∷ []

-- The two searches by a regular expression: one of the words anywhere, one of them in front.
abbrev pub contains_one : List String → String → Bool
contains_one words s = any (λ w. contains s w) words

abbrev pub starts_with_one : List String → String → Bool
starts_with_one words s = any (λ w. starts_with s w) words

unfoldable pub effective_timeout_s : ToolTimeoutPolicy → ℕ
effective_timeout_s policy =
    let name = lower policy.tool_name in
    let timeout = policy.base_timeout_s in
    let heavy = if contains_one heavy_words name then min 90 (timeout + 15) else timeout in
    let light = if starts_with_one trivial_prefixes name then max 60 (heavy - 15) else heavy in
    min light policy.hard_kill_s

unfoldable pub tool_policy : String → ToolTimeoutPolicy
tool_policy tool_name = record {
  tool_name = tool_name;
  base_timeout_s = tool_invocation_timeout_s;
  attempts = tool_invocation_attempts;
  hard_kill_s = hard_kill_timeout_s;
}

abbrev pub readonly_prefixes : List String
readonly_prefixes = "list" ∷ "get" ∷ "search" ∷ "find" ∷ "fetch" ∷ "read" ∷ "query" ∷ "show" ∷ []

abbrev pub write_markers : List String
write_markers =
    "create" ∷ "delete" ∷ "remove" ∷ "update" ∷ "write" ∷ "send" ∷ "post" ∷ "put" ∷ "patch"
    ∷ "submit" ∷ "deploy" ∷ "run" ∷ "exec" ∷ "invite" ∷ "move" ∷ "archive" ∷ "restore" ∷ "cancel"
    ∷ "pay" ∷ "purchase" ∷ []

abbrev pub destructive_verbs : List String
destructive_verbs = "deletes" ∷ "creates" ∷ "sends" ∷ "modifies" ∷ "writes" ∷ "posts" ∷ []

abbrev pub reading_verbs : List String
reading_verbs = "returns" ∷ "lists" ∷ "searches" ∷ "retrieves" ∷ "reads" ∷ []

abbrev pub text_or_empty : Option String → String
text_or_empty none = ""
text_or_empty (some s) = s

unfoldable pub is_readonly_tool : String → Option String → Bool
is_readonly_tool tool_name description =
    let name = lower (strip tool_name) in
    let text = lower (text_or_empty description) in
    if is_empty name
    then false
    else if starts_with_one readonly_prefixes name
    then true
    else if contains_one write_markers name
    then false
    else if is_empty text
    then false
    else if contains_one destructive_verbs text
    then false
    else contains_one reading_verbs text
