-- ===== src/Verification/Scoring.antt =====
-- The scoring engine, platform/backend/app/verification/scoring.py. A float check result is an
-- exact fraction, which `_build_soft_checks` makes of counts; it is never negative there, so the
-- lower clamp of `add` has nothing to do. Parts of the score are kept in hundredths, as
-- `round(_, 2)` leaves them.
pub mod Bounds
pub mod Buckets
pub mod Monotone
use mathlib.Core.Option
use discovery_application.Base.{
  ℕ, ◌+◌, ◌-◌, ◌*◌, min, String, Bool, true, false, not, ◌&&◌, Option, none, some, List, ltb, leb,
  if◌then◌else◌, round_half_even, str_eq,
}
use discovery_application.Verification.Models.{
  Confidence, low, medium, high, is_high, is_low, ServerStatus, Transport, is_local, Breakdown,
}

pub record Ratio : Type 0 where
  pub num : ℕ
  pub den : ℕ

abbrev pub weight_install_connect : ℕ
weight_install_connect = 25

abbrev pub weight_handshake : ℕ
weight_handshake = 15

abbrev pub weight_tools_list : ℕ
weight_tools_list = 15

abbrev pub weight_tool_invocation : ℕ
weight_tool_invocation = 25

abbrev pub weight_semantic : ℕ
weight_semantic = 15

abbrev pub weight_malformed_input : ℕ
weight_malformed_input = 5

-- `LATENCY_PENALTY.get(category, 0)`.
unfoldable pub latency_penalty : String → ℕ
latency_penalty category =
    if str_eq category "fast"
    then 0
    else if str_eq category "moderate"
    then 3
    else if str_eq category "slow"
    then 8
    else 0

abbrev pub ttl_days_local : ℕ
ttl_days_local = 30

abbrev pub ttl_days_remote : ℕ
ttl_days_remote = 7

abbrev pub remote_attempts_planned : ℕ
remote_attempts_planned = 3

abbrev pub verified_min_score : ℕ
verified_min_score = 80

abbrev pub review_max_score : ℕ
review_max_score = 79

pub record SoftCheckResults : Type 0 where
  pub install_connect : Option Ratio
  pub handshake_valid : Option Ratio
  pub tools_list_schema : Option Ratio
  pub tool_invocation : Option Ratio
  pub semantic_validity : Option Ratio
  pub no_crash_malformed_input : Option Ratio
  pub security_penalty : Ratio
  pub latency_category : Option String
  pub hard_fail : Bool
  pub auth_blocked : Bool
  pub invocation_attempted : Bool
  pub checks_run : ℕ
  pub notes : List String

pub record ScoreOutcome : Type 0 where
  pub quality_score : ℕ
  pub confidence : Confidence
  pub status : ServerStatus
  pub hard_fail : Bool
  pub breakdown : Breakdown
  pub reason : Option String

-- `_confidence_from_attempts`: the ratio of two whole numbers is compared by cross products.
unfoldable pub confidence_from_attempts : ℕ → ℕ → Confidence
confidence_from_attempts attempts_completed attempts_planned =
    if leb attempts_planned 1
    then high
    else if leb attempts_planned attempts_completed
    then high
    else if leb attempts_planned (2 * attempts_completed)
    then medium
    else low

-- `round(max(0.0, min(1.0, value)) * weight, 2)`, in hundredths.
unfoldable pub part : ℕ → Ratio → ℕ
part weight value = round_half_even (min value.num value.den * (weight * 100)) value.den

-- `add`: a check that did not run leaves no entry.
unfoldable pub add : Option Ratio → ℕ → Option ℕ
add value weight = Option.map (part weight) value

-- `if result.latency_category: …`.
unfoldable pub latency_entry : Option String → Option ℕ
latency_entry none = none
latency_entry (some category) =
    if str_eq category "" then none else some (latency_penalty category * 100)

-- `if result.security_penalty > 0: …`.
unfoldable pub security_entry : Ratio → Option ℕ
security_entry penalty =
    if ltb 0 penalty.num then some (round_half_even (penalty.num * 1000) penalty.den) else none

unfoldable pub breakdown_of : SoftCheckResults → Breakdown
breakdown_of result = record {
  install_connect = add result.install_connect weight_install_connect;
  handshake_valid = add result.handshake_valid weight_handshake;
  tools_list_schema = add result.tools_list_schema weight_tools_list;
  tool_invocation = add result.tool_invocation weight_tool_invocation;
  semantic_validity = add result.semantic_validity weight_semantic;
  no_crash_malformed_input = add result.no_crash_malformed_input weight_malformed_input;
  latency_penalty = latency_entry result.latency_category;
  security_penalty = security_entry result.security_penalty;
}

abbrev pub entry : Option ℕ → ℕ
entry none = 0
entry (some h) = h

-- The sum of the positive entries, and of the amounts deducted.
unfoldable pub credit : Breakdown → ℕ
credit b =
    entry b.install_connect
    + entry b.handshake_valid
    + entry b.tools_list_schema
    + entry b.tool_invocation
    + entry b.semantic_validity
    + entry b.no_crash_malformed_input

unfoldable pub deduction : Breakdown → ℕ
deduction b = entry b.latency_penalty + entry b.security_penalty

-- `int(round(max(0, min(100, raw))))`: the truncated difference is the clamp at 0.
unfoldable pub total : Breakdown → ℕ
total b = round_half_even (min 10000 (credit b - deduction b)) 100

-- The status buckets.
unfoldable pub bucket : Bool → Bool → ℕ → Confidence → ServerStatus
bucket auth_blocked invocation_attempted score confidence =
    if auth_blocked && not invocation_attempted
    then ServerStatus.partial_verified
    else if leb verified_min_score score && is_high confidence
    then ServerStatus.verified
    else if leb verified_min_score score && is_low confidence
    then ServerStatus.review
    else if leb score review_max_score && leb 40 score
    then ServerStatus.review
    else if ltb score 40 && is_high confidence
    then ServerStatus.rejected
    else ServerStatus.retry_pending

abbrev pub empty_breakdown : Breakdown
empty_breakdown = record {
  install_connect = none;
  handshake_valid = none;
  tools_list_schema = none;
  tool_invocation = none;
  semantic_validity = none;
  no_crash_malformed_input = none;
  latency_penalty = none;
  security_penalty = none;
}

unfoldable pub score_server : SoftCheckResults → ℕ → ℕ → ScoreOutcome
unfolding bucket
score_server result attempts_completed attempts_planned =
    let confidence = confidence_from_attempts attempts_completed attempts_planned in
    let breakdown = breakdown_of result in
    let score = total breakdown in
    if result.hard_fail
    then record {
      quality_score = 0;
      confidence = confidence;
      status = ServerStatus.rejected;
      hard_fail = true;
      breakdown = empty_breakdown;
      reason = some "handshake/install never completed";
    }
    else record {
      quality_score = score;
      confidence = confidence;
      status = bucket result.auth_blocked result.invocation_attempted score confidence;
      hard_fail = false;
      breakdown = breakdown;
      reason = none;
    }

unfoldable pub ttl_days_for : Transport → ℕ
ttl_days_for transport = if is_local transport then ttl_days_local else ttl_days_remote
