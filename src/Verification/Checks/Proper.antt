-- ===== src/Verification/Checks/Proper.antt =====
-- The checks made of an attempt are proper fractions, and what their invocation part says.
use discovery_application.Base.{
  ◌<◌, ◌≡◌, refl, true, false, Option, none, some, List, [], ◌∷◌, any, count, arith, Bool, ltb,
  ltb→lt, not, is_nil, length, if◌then◌else◌,
}
use discovery_application.Verification.Models.{ToolOutcome, StageResult, is_success}
use discovery_application.Verification.Scoring.{Ratio}
use discovery_application.Verification.Scoring.Bounds.{IsProper, AreProper}
use discovery_application.Verification.Checks.{
  AttemptOutcome, build_soft_checks, graded, semantic_ratio, malformed_check, call_succeeded,
  connected, was_judged,
}

graded-IsProper : (b : Bool) (s : Option StageResult) → IsProper (graded b s)
unfolding graded
graded-IsProper b none = tt
graded-IsProper true (some s) = omega arith
graded-IsProper false (some s) = omega arith

IsProper-if :
    (b : Bool) (o p : Option Ratio)
    → (b ≡ true → IsProper o)
    → IsProper p
    → IsProper (if b then o else p)
IsProper-if true o p h k = h refl
IsProper-if false o p h k = k

semantic_ratio-IsProper : (os : List ToolOutcome) → IsProper (semantic_ratio os)
unfolding semantic_ratio
semantic_ratio-IsProper os = IsProper-if (ltb 0 (count was_judged os)) _ none (ltb→lt 0 _) tt

malformed_check-IsProper : (b : Option Bool) → IsProper (malformed_check b)
unfolding malformed_check
malformed_check-IsProper none = tt
malformed_check-IsProper (some true) = omega arith
malformed_check-IsProper (some false) = omega arith

length-pos {ℓ} : {A : Type ℓ} (xs : List A) → not (is_nil xs) ≡ true → 0 < length xs
length-pos [] h = cc
length-pos (x ∷ xs) h = omega arith

pub build_soft_checks-AreProper : (o : AttemptOutcome) → AreProper (build_soft_checks o)
unfolding build_soft_checks
build_soft_checks-AreProper o = record {
  install_connect =
      IsProper-if (connected o.stage_results) _ _ (λ _. omega arith)
        (IsProper-if (is_success o.kind) _ _ (λ _. omega arith) tt);
  handshake_valid = graded-IsProper _ _;
  tools_list_schema = graded-IsProper _ _;
  tool_invocation =
      IsProper-if (not (is_nil o.tool_outcomes)) _ none (length-pos o.tool_outcomes) tt;
  semantic_validity = semantic_ratio-IsProper o.tool_outcomes;
  no_crash_malformed_input = malformed_check-IsProper o.malformed_graceful;
}

any_of_count {ℓ} : {A : Type ℓ} (p : A → Bool) (xs : List A) → 0 < count p xs → any p xs ≡ true
any_of_count p [] h = absurd (omega arith)
any_of_count p (x ∷ xs) h = ground (arith, any_of_count p xs)

-- A positive invocation part comes from a tool call that succeeded.
pub any-call_succeeded :
    (o : AttemptOutcome) (f : Ratio)
    → (build_soft_checks o).tool_invocation ≡ some f
    → 0 < f.num
    → any call_succeeded o.tool_outcomes ≡ true
unfolding build_soft_checks
any-call_succeeded o f e h = any_of_count call_succeeded o.tool_outcomes (ground arith)
