-- ===== src/Base/Sorting.antt =====
-- Python's stable `sorted(xs, key=key, reverse=True)`: insertion from the end of the list.
use Prim.Native.Nat.{ℕ, ◌≤◌}
use mathlib.Core.Path.{◌≡◌}
use mathlib.Core.Logic.{◌⊎◌, inl, inr}
use mathlib.Core.List.{List, [], ◌∷◌}
use native.Mathlib.Omega.{arith}
use discovery_application.Base.Tests.{leb, if◌then◌else◌, Bool-cases, leb→le}
use discovery_application.Base.Lists.{All, All-mono, In}

module _ {A : Type 0} (key : A → ℕ) where
  -- An element goes before those that follow it unless one with a greater key stands there.
  unfoldable pub insert_desc : A → List A → List A
  insert_desc x [] = x ∷ []
  insert_desc x (y ∷ ys) =
      let rest = insert_desc x ys in if leb (key y) (key x) then x ∷ y ∷ ys else y ∷ rest

  unfoldable pub sort_desc : List A → List A
  unfolding insert_desc
  sort_desc [] = []
  sort_desc (x ∷ xs) = insert_desc x (sort_desc xs)

  -- Every element has at least the key of those that follow it.
  abbrev pub IsDescending : List A → Type 0
  IsDescending [] = Unit {0}
  IsDescending (x ∷ xs) = All (λ y. key y ≤ key x) xs × IsDescending xs

  insert_desc-All :
      (P : A → Type 0) (x : A) (ys : List A) → P x → All P ys → All P (insert_desc x ys)
  unfolding insert_desc
  insert_desc-All P x [] p h = (p, tt)
  insert_desc-All P x (y ∷ ys) p (q, h) = elim (Bool-cases (leb (key y) (key x))) [
    | inl e ↦ rw e (p, (q, h))
    | inr e ↦ rw e (q, insert_desc-All P x ys p h)
  ]

  insert_desc-IsDescending :
      (x : A) (ys : List A) → IsDescending ys → IsDescending (insert_desc x ys)
  unfolding insert_desc
  insert_desc-IsDescending x [] h = (tt, tt)
  insert_desc-IsDescending x (y ∷ ys) (top, h) = elim (Bool-cases (leb (key y) (key x))) [
    | inl e ↦
        let le : key y ≤ key x = leb→le _ _ e in
        rw e (
          (le, All-mono (λ z. key z ≤ key y) (λ z. key z ≤ key x) ys (λ z p. omega arith) top),
          (top, h),
        )
    | inr e ↦
        let le : key x ≤ key y = ground arith in
        rw e (insert_desc-All (λ z. key z ≤ key y) x ys le top, insert_desc-IsDescending x ys h)
  ]

  pub sort_desc-IsDescending : (xs : List A) → IsDescending (sort_desc xs)
  unfolding sort_desc
  sort_desc-IsDescending [] = tt
  sort_desc-IsDescending (x ∷ xs) =
      insert_desc-IsDescending x (sort_desc xs) (sort_desc-IsDescending xs)

  pub sort_desc-All : (P : A → Type 0) (xs : List A) → All P xs → All P (sort_desc xs)
  unfolding sort_desc
  sort_desc-All P [] h = tt
  sort_desc-All P (x ∷ xs) (p, h) = insert_desc-All P x (sort_desc xs) p (sort_desc-All P xs h)

  insert_desc-In : (x y : A) (ys : List A) → (y ≡ x) ⊎ In y ys → In y (insert_desc x ys)
  unfolding insert_desc
  insert_desc-In x y [] (inl e) = inl e
  insert_desc-In x y [] (inr i) = absurd i
  insert_desc-In x y (z ∷ zs) (inl e) = elim (Bool-cases (leb (key z) (key x))) [
    | inl t ↦ rw t (inl e)
    | inr t ↦ rw t (inr (insert_desc-In x y zs (inl e)))
  ]
  insert_desc-In x y (z ∷ zs) (inr (inl e)) = elim (Bool-cases (leb (key z) (key x))) [
    | inl t ↦ rw t (inr (inl e))
    | inr t ↦ rw t (inl e)
  ]
  insert_desc-In x y (z ∷ zs) (inr (inr i)) = elim (Bool-cases (leb (key z) (key x))) [
    | inl t ↦ rw t (inr (inr i))
    | inr t ↦ rw t (inr (insert_desc-In x y zs (inr i)))
  ]

  pub sort_desc-In : (y : A) (xs : List A) → In y xs → In y (sort_desc xs)
  unfolding sort_desc
  sort_desc-In y [] i = absurd i
  sort_desc-In y (x ∷ xs) (inl e) = insert_desc-In x y (sort_desc xs) (inl e)
  sort_desc-In y (x ∷ xs) (inr i) = insert_desc-In x y (sort_desc xs) (inr (sort_desc-In y xs i))
