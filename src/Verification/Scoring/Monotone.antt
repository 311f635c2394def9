-- ===== src/Verification/Scoring/Monotone.antt =====
-- Better checks never lower the score.
use native.Mathlib.Decide.{dec_le}
use native.Mathlib.Nat.{mul-le-mul_right, mul_comm, le_trans}
use discovery_application.Base.{
  ℕ, ◌-◌, ◌*◌, ◌≤◌, ◌<◌, ◌≡◌, min, Option, none, some, false, arith, round_half_even_mono,
  round_half_even_mono_ratio,
}
use discovery_application.Verification.Models.{Breakdown}
use discovery_application.Verification.Scoring.{
  Ratio, SoftCheckResults, part, add, entry, credit, deduction, total, breakdown_of, score_server,
  weight_install_connect, weight_handshake, weight_tools_list, weight_tool_invocation,
  weight_semantic, weight_malformed_input,
}
use discovery_application.Verification.Scoring.Bounds.{IsProper, AreProper, score_server-total}

-- A check did at least as well: it ran where it had not, or its fraction is no smaller.
abbrev pub AtMost : Option Ratio → Option Ratio → Type 0
AtMost none _ = Unit {0}
AtMost (some a) none = ⊥
AtMost (some a) (some b) = a.num * b.den ≤ b.num * a.den

pub record Improves (r s : SoftCheckResults) : Type 0 where
  pub install_connect : AtMost r.install_connect s.install_connect
  pub handshake_valid : AtMost r.handshake_valid s.handshake_valid
  pub tools_list_schema : AtMost r.tools_list_schema s.tools_list_schema
  pub tool_invocation : AtMost r.tool_invocation s.tool_invocation
  pub semantic_validity : AtMost r.semantic_validity s.semantic_validity
  pub no_crash_malformed_input : AtMost r.no_crash_malformed_input s.no_crash_malformed_input
  pub security_penalty : r.security_penalty ≡ s.security_penalty
  pub latency_category : r.latency_category ≡ s.latency_category

clamp_mono :
    (a b : Ratio)
    → a.num * b.den ≤ b.num * a.den
    → min a.num a.den * b.den ≤ min b.num b.den * a.den
clamp_mono a b h = elim (dec_le b.num b.den) [
  | yes q ↦
      let high : min b.num b.den ≡ b.num = omega arith in
      let low : min a.num a.den ≤ a.num = omega arith in
      rw high (le_trans (mul-le-mul_right b.den low) h)
  | no q ↦
      let high : min b.num b.den ≡ b.den = omega arith in
      let low : min a.num a.den ≤ a.den = omega arith in
      rw (high, mul_comm b.den a.den) (mul-le-mul_right b.den low)
]

part_mono :
    (w : ℕ) (a b : Ratio)
    → 0 < a.den
    → 0 < b.den
    → a.num * b.den ≤ b.num * a.den
    → part w a ≤ part w b
unfolding part
part_mono w a b ha hb h =
    round_half_even_mono_ratio _ a.den _ b.den ha hb
      (omega (arith, mul-le-mul_right (w * 100) (clamp_mono a b h)))

add_mono :
    (w : ℕ) (o p : Option Ratio)
    → IsProper o
    → IsProper p
    → AtMost o p
    → entry (add o w) ≤ entry (add p w)
unfolding add
add_mono w none p ho hp h = omega arith
add_mono w (some a) none ho hp h = absurd h
add_mono w (some a) (some b) ho hp h = part_mono w a b ho hp h

credit_mono :
    (r s : SoftCheckResults)
    → AreProper r
    → AreProper s
    → Improves r s
    → credit (breakdown_of r) ≤ credit (breakdown_of s)
unfolding credit breakdown_of
credit_mono r s p q i = omega (
  arith,
  add_mono weight_install_connect _ _ p.install_connect q.install_connect i.install_connect,
  add_mono weight_handshake _ _ p.handshake_valid q.handshake_valid i.handshake_valid,
  add_mono weight_tools_list _ _ p.tools_list_schema q.tools_list_schema i.tools_list_schema,
  add_mono weight_tool_invocation _ _ p.tool_invocation q.tool_invocation i.tool_invocation,
  add_mono weight_semantic _ _ p.semantic_validity q.semantic_validity i.semantic_validity,
  add_mono weight_malformed_input _ _ p.no_crash_malformed_input q.no_crash_malformed_input
      i.no_crash_malformed_input,
)

deduction_same :
    (r s : SoftCheckResults)
    → Improves r s
    → deduction (breakdown_of r) ≡ deduction (breakdown_of s)
unfolding deduction breakdown_of
deduction_same r s i = rw (i.security_penalty, i.latency_category)

total_mono : (b c : Breakdown) → credit b ≤ credit c → deduction b ≡ deduction c → total b ≤ total c
unfolding total
total_mono b c h e =
    round_half_even_mono (min 10000 (credit b - deduction b)) (min 10000 (credit c - deduction c))
      100 (omega arith) (omega arith)

-- If each check of one run did at least as well as in another, under the same penalties and
-- with no hard failure, its score is no lower: the clamps and the rounding keep the order.
pub score_server_mono :
    (r s : SoftCheckResults) (completed planned : ℕ)
    → AreProper r
    → AreProper s
    → Improves r s
    → r.hard_fail ≡ false
    → s.hard_fail ≡ false
    → (score_server r completed planned).quality_score
      ≤ (score_server s completed planned).quality_score
score_server_mono r s completed planned p q i hr hs = omega (
  arith,
  score_server-total r completed planned hr,
  score_server-total s completed planned hs,
  total_mono (breakdown_of r) (breakdown_of s) (credit_mono r s p q i) (deduction_same r s i),
)
