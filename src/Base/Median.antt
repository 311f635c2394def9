-- ===== src/Base/Median.antt =====
-- `int(statistics.median(xs))` of Python's library, for a list that is not empty.
use Prim.Native.Nat.{ℕ, zero, suc, ◌+◌, ◌-◌, ◌/◌, ◌%◌}
use mathlib.Core.List.{List, [], ◌∷◌}
use discovery_application.Base.Tests.{leb, ◌==◌, if◌then◌else◌}
use discovery_application.Base.Lists.{length}

insert_sorted : ℕ → List ℕ → List ℕ
insert_sorted x [] = x ∷ []
insert_sorted x (y ∷ ys) = if leb x y then x ∷ y ∷ ys else y ∷ insert_sorted x ys

sorted : List ℕ → List ℕ
sorted [] = []
sorted (x ∷ xs) = insert_sorted x (sorted xs)

nth : List ℕ → ℕ → ℕ
nth [] i = 0
nth (x ∷ xs) zero = x
nth (x ∷ xs) (suc i) = nth xs i

unfoldable pub median : List ℕ → ℕ
unfolding insert_sorted sorted nth
median xs =
    if length xs % 2 == 1
    then nth (sorted xs) (length xs / 2)
    else (nth (sorted xs) (length xs / 2 - 1) + nth (sorted xs) (length xs / 2)) / 2
