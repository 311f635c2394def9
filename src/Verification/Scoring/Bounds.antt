-- ===== src/Verification/Scoring/Bounds.antt =====
-- Bounds on the score, and what a high score needs.
use native.Mathlib.Decide.{dec_lt}
use native.Mathlib.Nat.{mul-le-mul_right}
use discovery_application.Base.{
  ℕ, ◌-◌, ◌*◌, ◌≤◌, ◌<◌, ◌≡◌, min, refl, Option, none, some, false, arith, round_half_even-le,
  round_half_even_near, round_half_even_zero,
}
use discovery_application.Verification.Models.{Breakdown, ServerStatus}
use discovery_application.Verification.Scoring.{
  Ratio, SoftCheckResults, part, add, entry, credit, deduction, total, breakdown_of, score_server,
  weight_install_connect, weight_handshake, weight_tools_list, weight_tool_invocation,
  weight_semantic, weight_malformed_input,
}
use discovery_application.Verification.Scoring.Buckets.{score_server-verified_iff}

-- A check that ran has a fraction with a proper denominator.
abbrev pub IsProper : Option Ratio → Type 0
IsProper none = Unit {0}
IsProper (some r) = 0 < r.den

pub record AreProper (r : SoftCheckResults) : Type 0 where
  pub install_connect : IsProper r.install_connect
  pub handshake_valid : IsProper r.handshake_valid
  pub tools_list_schema : IsProper r.tools_list_schema
  pub tool_invocation : IsProper r.tool_invocation
  pub semantic_validity : IsProper r.semantic_validity
  pub no_crash_malformed_input : IsProper r.no_crash_malformed_input

part-le : (w : ℕ) (r : Ratio) → 0 < r.den → part w r ≤ w * 100
unfolding part
part-le w r h =
    let low : min r.num r.den ≤ r.den = omega arith in
    round_half_even-le _ r.den (w * 100) h (omega (arith, mul-le-mul_right (w * 100) low))

pub entry-add-le : (o : Option Ratio) (w : ℕ) → IsProper o → entry (add o w) ≤ w * 100
unfolding add
entry-add-le none w h = omega arith
entry-add-le (some r) w h = part-le w r h

total-le : (b : Breakdown) → total b ≤ 100
unfolding total
total-le b = round_half_even-le _ 100 100 (omega arith) (omega arith)

-- The score lies between 0 and 100, whatever the checks, the penalties and the attempts.
pub score_server-le-100 :
    (r : SoftCheckResults) (completed planned : ℕ)
    → (score_server r completed planned).quality_score ≤ 100
unfolding score_server
score_server-le-100 r completed planned = ground (arith, total-le (breakdown_of r))

pub score_server-total :
    (r : SoftCheckResults) (completed planned : ℕ)
    → r.hard_fail ≡ false
    → (score_server r completed planned).quality_score ≡ total (breakdown_of r)
unfolding score_server
score_server-total r completed planned h = rw h

credit_of_total : (b : Breakdown) → 80 ≤ total b → 7950 ≤ credit b
unfolding total
credit_of_total b h = omega (arith, round_half_even_near (min 10000 (credit b - deduction b)) 100)

part_of_zero : (w : ℕ) (r : Ratio) → 0 < r.den → r.num ≡ 0 → part w r ≡ 0
unfolding part
part_of_zero w r h e =
    let none_left : min r.num r.den * (w * 100) ≡ 0 =
      let low : min r.num r.den ≡ 0 = omega arith in rw low (omega arith) in
    rw none_left (round_half_even_zero r.den h)

invocation_of_credit :
    (r : SoftCheckResults)
    → AreProper r
    → 7950 ≤ credit (breakdown_of r)
    → 450 ≤ entry (add r.tool_invocation weight_tool_invocation)
unfolding credit breakdown_of
invocation_of_credit r p h = omega (
  arith,
  entry-add-le r.install_connect weight_install_connect p.install_connect,
  entry-add-le r.handshake_valid weight_handshake p.handshake_valid,
  entry-add-le r.tools_list_schema weight_tools_list p.tools_list_schema,
  entry-add-le r.semantic_validity weight_semantic p.semantic_validity,
  entry-add-le r.no_crash_malformed_input weight_malformed_input p.no_crash_malformed_input,
)

success_of_entry :
    (o : Option Ratio) (w : ℕ)
    → IsProper o
    → 0 < entry (add o w)
    → (f : Ratio) × (o ≡ some f) × (0 < f.num)
unfolding add
success_of_entry none w p h = absurd (omega arith)
success_of_entry (some r) w p h = (
  r,
  refl,
  elim (dec_lt 0 r.num) [
    | yes q ↦ q
    | no q ↦ absurd (omega (arith, part_of_zero w r p (omega arith)))
  ],
)

-- No server is verified without a tool call that succeeded: without one the other checks are
-- worth at most 75 points.
pub score_server-verified-invocation :
    (r : SoftCheckResults) (completed planned : ℕ)
    → AreProper r
    → (score_server r completed planned).status ≡ ServerStatus.verified
    → (f : Ratio) × (r.tool_invocation ≡ some f) × (0 < f.num)
score_server-verified-invocation r completed planned p h =
    let (ran, high_score, _, _) = (score_server-verified_iff r completed planned).0 h in
    let score : 80 ≤ total (breakdown_of r) =
      omega (arith, score_server-total r completed planned ran) in
    let entry_high = invocation_of_credit r p (credit_of_total (breakdown_of r) score) in
    success_of_entry r.tool_invocation weight_tool_invocation p.tool_invocation (omega arith)
