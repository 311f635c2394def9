-- ===== src/Base/Keyed.antt =====
-- Dicts whose entries are filed under a key of their values.
use mathlib.Core.Path.{◌≡◌, refl, sym, subst, ◌∙◌}
use mathlib.Core.Logic.{◌≢◌, inl, inr}
use mathlib.Core.Option.{some}
use mathlib.Core.List.{List, [], ◌∷◌}
use Prim.Native.String.{String}
use native.Mathlib.Omega.{arith}
use text.Mathlib.Text.{◌==◌ as str_eq}
use text.Mathlib.TextEquality.{eq_iff as str_eq_iff}
use discovery_application.Base.Tests.{Bool-cases}
use discovery_application.Base.Lists.{All, In}
use discovery_application.Base.Dicts.{Dict, lookup, put, values}

module _ {A : Type 0} (key : A → String) where
  -- No two elements of a list have the same key.
  abbrev pub AreDistinct : List A → Type 0
  AreDistinct [] = Unit {0}
  AreDistinct (x ∷ xs) = All (λ y. key y ≢ key x) xs × AreDistinct xs

  -- Every entry is filed under the key of its value, and no key comes twice.
  abbrev pub IsKeyed : Dict A → Type 0
  IsKeyed [] = Unit {0}
  IsKeyed ((k, x) ∷ d) = (key x ≡ k) × All (λ (e : String × A). e.0 ≢ k) d × IsKeyed d

  put-keys :
      (j k : String) (x : A) (d : Dict A)
      → k ≢ j
      → All (λ (e : String × A). e.0 ≢ k) d
      → All (λ (e : String × A). e.0 ≢ k) (put j x d)
  put-keys j k x [] other h = ((λ e. other (sym e)), tt)
  put-keys j k x ((i, y) ∷ d) other (h, hs) = elim (Bool-cases (str_eq i j)) [
    | inl same ↦ rw same (h, hs)
    | inr differ ↦ rw differ (h, put-keys j k x d other hs)
  ]

  pub put-IsKeyed : (x : A) (d : Dict A) → IsKeyed d → IsKeyed (put (key x) x d)
  put-IsKeyed x [] h = (refl, tt, tt)
  put-IsKeyed x ((k, y) ∷ d) (own, others, rest) = elim (Bool-cases (str_eq k (key x))) [
    | inl same ↦ rw same (sym ((str_eq_iff _ _).0 same), others, rest)
    | inr differ ↦ rw differ (
      own,
      put-keys (key x) k x d (λ e. cc ((str_eq_iff k (key x)).1 e)) others,
      put-IsKeyed x d rest,
    )
  ]

  values-All :
      (k : String) (d : Dict A)
      → IsKeyed d
      → All (λ (e : String × A). e.0 ≢ k) d
      → All (λ y. key y ≢ k) (values d)
  values-All k [] h others = tt
  values-All k ((j, y) ∷ d) (own, _, rest) (other, others) =
      ((λ e. other (sym own ∙ e)), values-All k d rest others)

  pub values-AreDistinct : (d : Dict A) → IsKeyed d → AreDistinct (values d)
  values-AreDistinct [] h = tt
  values-AreDistinct ((k, x) ∷ d) (own, others, rest) =
      (rw own (values-All k d rest others), values-AreDistinct d rest)

  pub lookup-IsKeyed :
      (k : String) (x : A) (d : Dict A)
      → IsKeyed d
      → lookup k d ≡ some x
      → (key x ≡ k) × In x (values d)
  lookup-IsKeyed k x [] h e = cc
  lookup-IsKeyed k x ((j, y) ∷ d) (own, others, rest) e = elim (Bool-cases (str_eq j k)) [
    | inl same ↦
        let found : y ≡ x = ground arith in
        let at : j ≡ k = (str_eq_iff j k).0 same in
        (subst (λ z. key z ≡ k) found (own ∙ at), inl (sym found))
    | inr differ ↦ let (at, i) = lookup-IsKeyed k x d rest (rw differ at e) in (at, inr i)
  ]
