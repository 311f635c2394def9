-- ===== src/Base/Rounding.antt =====
-- Python's `round` on an exact quotient `n / d`: half to even.
use Prim.Native.Nat.{ℕ, ◌+◌, ◌*◌, ◌/◌, ◌%◌, ◌≤◌, ◌<◌}
use mathlib.Core.Path.{◌≡◌, ap}
use mathlib.Core.Logic.{◌⊎◌, inl, inr}
use native.Mathlib.Decide.{dec_lt}
use native.Mathlib.Nat.{
  div-add-mod, le-div_iff_mul-le, div-mul-le_self, mul-div_cancel, mul-mod_left, le_trans,
  mul-div-mul_right, mul_comm, mul_assoc,
}
use native.Mathlib.Omega.{arith}
use discovery_application.Base.Tests.{ltb, if◌then◌else◌}

-- From the quotient and the remainder.
nearest : ℕ → ℕ → ℕ → ℕ
nearest d q r = if ltb (2 * r) d then q else if ltb d (2 * r) then q + 1 else q + q % 2

unfoldable pub round_half_even : ℕ → ℕ → ℕ
unfolding nearest
round_half_even n d = nearest d (n / d) (n % d)

nearest_bounds : (d q r : ℕ) → (q ≤ nearest d q r) × (nearest d q r ≤ q + 1)
unfolding nearest
nearest_bounds d q r = ground arith

nearest_mono : (d q r s : ℕ) → r ≤ s → nearest d q r ≤ nearest d q s
unfolding nearest
nearest_mono d q r s h = ground arith

div_mono : (n m d : ℕ) → 0 < d → n ≤ m → n / d ≤ m / d
div_mono n m d h k = (le-div_iff_mul-le h).1 (le_trans (div-mul-le_self n d) k)

div_cases : (n m d : ℕ) → 0 < d → n ≤ m → (n / d < m / d) ⊎ (((n / d) ≡ (m / d)) × (n % d ≤ m % d))
div_cases n m d h k = elim (dec_lt (n / d) (m / d)) [
  | yes p ↦ inl p
  | no p ↦
      let e : n / d ≡ m / d = omega (arith, div_mono n m d h k) in
      inr (e, omega (arith, div-add-mod n d, div-add-mod m d, ap (λ (t : ℕ). d * t) e))
]

-- Rounding keeps the order.
pub round_half_even_mono : (n m d : ℕ) → 0 < d → n ≤ m → round_half_even n d ≤ round_half_even m d
unfolding round_half_even
round_half_even_mono n m d h k = elim (div_cases n m d h k) [
  | inl p ↦
      omega (arith, (nearest_bounds d (n / d) (n % d)).1, (nearest_bounds d (m / d) (m % d)).0)
  | inr (e, r) ↦ rw e (nearest_mono d (m / d) (n % d) (m % d) r)
]

pub round_half_even_whole : (k d : ℕ) → 0 < d → round_half_even (k * d) d ≡ k
unfolding round_half_even nearest
round_half_even_whole k d h = rw (mul-div_cancel k h, mul-mod_left) (ground arith)

-- A bound by a whole number is kept.
pub round_half_even-le : (n d k : ℕ) → 0 < d → n ≤ k * d → round_half_even n d ≤ k
round_half_even-le n d k h le =
    omega (arith, round_half_even_mono n (k * d) d h le, round_half_even_whole k d h)

nearest_cases :
    (d q r : ℕ)
    → ((2 * r < d) × (nearest d q r ≡ q))
      ⊎ ((d ≤ 2 * r) × (nearest d q r ≡ q + 1))
      ⊎ ((d ≤ 2 * r) × (nearest d q r ≡ q))
unfolding nearest
nearest_cases d q r = elim (dec_lt (q % 2) 1) [
  | yes p ↦ let e : q % 2 ≡ 0 = omega arith in ground arith
  | no p ↦ let e : q % 2 ≡ 1 = omega arith in ground arith
]

nearest_near : (d q r : ℕ) → 2 * (d * nearest d q r) ≤ 2 * (d * q + r) + d
nearest_near d q r = elim (nearest_cases d q r) [
  | inl (h, e) ↦ rw e (omega arith)
  | inr (inl (h, e)) ↦ rw e (omega arith)
  | inr (inr (h, e)) ↦ rw e (omega arith)
]

-- The result lies within half a unit.
pub round_half_even_near : (n d : ℕ) → 2 * (d * round_half_even n d) ≤ 2 * n + d
unfolding round_half_even
round_half_even_near n d = omega (arith, nearest_near d (n / d) (n % d), div-add-mod n d)

pub round_half_even_zero : (d : ℕ) → 0 < d → round_half_even 0 d ≡ 0
round_half_even_zero d h = omega (arith, round_half_even-le 0 d 0 h (omega arith))

mul-mod-mul : (n d k : ℕ) → 0 < k → n * k % (d * k) ≡ n % d * k
mul-mod-mul n d k h = omega (
  arith,
  div-add-mod (n * k) (d * k),
  ap (λ (t : ℕ). d * k * t) (mul-div-mul_right n d h),
  ap (λ (t : ℕ). t * k) (div-add-mod n d),
)

ltb-mul : (a b k : ℕ) → 0 < k → ltb (a * k) (b * k) ≡ ltb a b
ltb-mul a b k h = elim (dec_lt a b) [
  | yes p ↦ let e : a * k < b * k = grind arith in ground arith
  | no p ↦ let e : b * k ≤ a * k = grind arith in ground arith
]

nearest_scale : (d q r k : ℕ) → 0 < k → nearest (d * k) q (r * k) ≡ nearest d q r
unfolding nearest
nearest_scale d q r k h = rw (← mul_assoc 2 r k, ltb-mul (2 * r) d k h, ltb-mul d (2 * r) k h)

-- A common factor cancels.
round_half_even_scale : (n d k : ℕ) → 0 < k → round_half_even (n * k) (d * k) ≡ round_half_even n d
unfolding round_half_even
round_half_even_scale n d k h =
    rw (mul-div-mul_right n d h, mul-mod-mul n d k h) (nearest_scale d (n / d) (n % d) k h)

-- Rounding keeps the order of two fractions.
pub round_half_even_mono_ratio :
    (n d m e : ℕ) → 0 < d → 0 < e → n * e ≤ m * d → round_half_even n d ≤ round_half_even m e
round_half_even_mono_ratio n d m e hd he le =
    rw (← round_half_even_scale n d e he, ← round_half_even_scale m e d hd, mul_comm e d)
      (round_half_even_mono (n * e) (m * d) (d * e) (grind arith) le)
