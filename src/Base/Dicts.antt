-- ===== src/Base/Dicts.antt =====
-- A Python dict with text keys, as the list of its items in the order of insertion.
use mathlib.Core.Path.{◌≡◌, refl}
use mathlib.Core.Logic.{◌≢◌, ◌⊎◌, inl, inr}
use mathlib.Core.Option.{Option, none, some}
use mathlib.Core.List.{List, [], ◌∷◌}
use Prim.Native.String.{String}
use native.Mathlib.Omega.{arith}
use text.Mathlib.Text.{◌==◌ as str_eq}
use text.Mathlib.TextEquality.{eq_iff as str_eq_iff}
use text.Mathlib.TextPositions.{eq_refl}
use discovery_application.Base.Tests.{if◌then◌else◌, Bool-cases}

abbrev pub Dict {ℓ} : Type ℓ → Type ℓ
Dict V = List (String × V)

module _ {ℓ} {V : Type ℓ} where
  -- `d.get(key)`.
  abbrev pub lookup : String → Dict V → Option V
  lookup key [] = none
  lookup key ((k, v) ∷ d) = if str_eq k key then some v else lookup key d

  -- `d[key] = value`.
  abbrev pub put : String → V → Dict V → Dict V
  put key value [] = (key, value) ∷ []
  put key value ((k, v) ∷ d) = if str_eq k key then (k, value) ∷ d else (k, v) ∷ put key value d

  -- `d.pop(key, None)`.
  abbrev pub pop : String → Dict V → Dict V
  pop key [] = []
  pop key ((k, v) ∷ d) = if str_eq k key then pop key d else (k, v) ∷ pop key d

  abbrev pub values : Dict V → List V
  values [] = []
  values ((k, v) ∷ d) = v ∷ values d

  pub lookup-put :
      (key : String) (value : V) (d : Dict V) → lookup key (put key value d) ≡ some value
  lookup-put key value [] = rw (eq_refl key)
  lookup-put key value ((k, v) ∷ d) = ground (arith, lookup-put key value d)

  pub lookup-put_other :
      (key other : String) (value : V) (d : Dict V)
      → other ≢ key
      → lookup other (put key value d) ≡ lookup other d
  lookup-put_other key other value [] h = ground (arith, str_eq_iff key other)
  lookup-put_other key other value ((k, v) ∷ d) h =
      ground (arith, str_eq_iff k key, str_eq_iff k other, lookup-put_other key other value d h)

  pub lookup-pop : (key : String) (d : Dict V) → lookup key (pop key d) ≡ none
  lookup-pop key [] = refl
  lookup-pop key ((k, v) ∷ d) = ground (arith, lookup-pop key d)

  pub lookup-pop_other :
      (key other : String) (d : Dict V) → other ≢ key → lookup other (pop key d) ≡ lookup other d
  lookup-pop_other key other [] h = refl
  lookup-pop_other key other ((k, v) ∷ d) h =
      ground (arith, str_eq_iff k key, str_eq_iff k other, lookup-pop_other key other d h)

pub text-cases : (a b : String) → (a ≡ b) ⊎ (a ≢ b)
text-cases a b = elim (Bool-cases (str_eq a b)) [
  | inl same ↦ inl ((str_eq_iff a b).0 same)
  | inr other ↦ inr (λ e. cc ((str_eq_iff a b).1 e))
]
