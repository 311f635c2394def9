-- ===== src/Tests/Scoring.antt =====
-- The scoring engine at concrete checks (app/tests/test_verification.py).
use discovery_application.Base.{
  ◌≤◌, ◌<◌, ◌≡◌, refl, true, false, none, some, [], arith, Option, round_half_even,
}
use discovery_application.Verification.Models.{ServerStatus}
use discovery_application.Verification.Scoring.{
  Ratio, SoftCheckResults, score_server, confidence_from_attempts, part, add, latency_entry,
  latency_penalty, security_entry, breakdown_of, credit, deduction, total,
}
use discovery_application.Verification.Scoring.Bounds
use discovery_application.Verification.Scoring.Bounds.{AreProper}
use discovery_application.Verification.Scoring.Monotone
use discovery_application.Verification.Scoring.Monotone.{Improves}

unfoldable pub engine : Unit {0}
unfolding score_server confidence_from_attempts part add latency_entry latency_penalty
    security_entry breakdown_of credit deduction total round_half_even
engine = tt

abbrev full : Option Ratio
full = some (record { num = 1; den = 1 })

-- Three of the five calls succeeded, and two of three answers were sensible.
abbrev mixed : SoftCheckResults
mixed = record {
  install_connect = full;
  handshake_valid = full;
  tools_list_schema = full;
  tool_invocation = some (record { num = 3; den = 5 });
  semantic_validity = some (record { num = 2; den = 3 });
  no_crash_malformed_input = full;
  security_penalty = record { num = 0; den = 1 };
  latency_category = none;
  hard_fail = false;
  auth_blocked = false;
  invocation_attempted = true;
  checks_run = 0;
  notes = [];
}

abbrev clean : SoftCheckResults
clean = record mixed { tool_invocation = full; semantic_validity = full }

mixed-score : (score_server mixed 1 1).quality_score ≡ 85
unfolding engine
mixed-score = refl

clean-score : (score_server clean 1 3).quality_score ≡ 100
unfolding engine
clean-score = refl

slow-score : (score_server (record clean { latency_category = some "slow" }) 1 1).quality_score ≡ 92
unfolding engine
slow-score = refl

clean-statuses :
    ((score_server clean 3 3).status ≡ ServerStatus.verified)
    × ((score_server clean 2 3).status ≡ ServerStatus.retry_pending)
    × ((score_server clean 1 3).status ≡ ServerStatus.review)
unfolding engine
clean-statuses = (refl, refl, refl)

mixed-AreProper : AreProper mixed
mixed-AreProper = record {
  install_connect = omega arith;
  handshake_valid = omega arith;
  tools_list_schema = omega arith;
  tool_invocation = omega arith;
  semantic_validity = omega arith;
  no_crash_malformed_input = omega arith;
}

clean-AreProper : AreProper clean
clean-AreProper = record {
  install_connect = omega arith;
  handshake_valid = omega arith;
  tools_list_schema = omega arith;
  tool_invocation = omega arith;
  semantic_validity = omega arith;
  no_crash_malformed_input = omega arith;
}

mixed-clean : Improves mixed clean
mixed-clean = record {
  install_connect = omega arith;
  handshake_valid = omega arith;
  tools_list_schema = omega arith;
  tool_invocation = omega arith;
  semantic_validity = omega arith;
  no_crash_malformed_input = omega arith;
  security_penalty = refl;
  latency_category = refl;
}

score_server-verified-invocation_example :
    (f : Ratio) × (mixed.tool_invocation ≡ some f) × (0 < f.num)
unfolding engine
score_server-verified-invocation_example =
    Bounds.score_server-verified-invocation mixed 1 1 mixed-AreProper refl

score_server_mono_example :
    (score_server mixed 1 1).quality_score ≤ (score_server clean 1 1).quality_score
score_server_mono_example =
    Monotone.score_server_mono mixed clean 1 1 mixed-AreProper clean-AreProper mixed-clean refl refl
