-- ===== src/Search/Tiers/Grouped.antt =====
-- The order of the rows is the grouping by tiers.
use discovery_application.Base.{
  ℕ, ◌≤◌, ◌≡◌, refl, ◌∙◌, ap, arith, true, false, List, [], ◌∷◌, ◌++◌, leb, ◌==◌, Bool-cases, inl,
  inr, ◌⊎◌, All,
}
use discovery_application.Search.Tiers.{
  ResultRow, result_tier, insert_row, order_results_by_tier, of_tier, tier_verified, tier_official,
  tier_unverified,
}

result_tier-le : (row : ResultRow) → result_tier row ≤ 2
unfolding result_tier
result_tier-le row = ground arith

abbrev OfTier : ℕ → List ResultRow → Type 0
OfTier tier = All (λ row. result_tier row ≡ tier)

of_tier-OfTier : (tier : ℕ) (rows : List ResultRow) → OfTier tier (of_tier tier rows)
of_tier-OfTier tier [] = tt
of_tier-OfTier tier (row ∷ rows) = elim (Bool-cases (result_tier row == tier)) [
  | inl e ↦ rw e (ground arith, of_tier-OfTier tier rows)
  | inr e ↦ rw e (of_tier-OfTier tier rows)
]

insert_past :
    (row : ResultRow) (tier : ℕ) (above rest : List ResultRow)
    → OfTier tier above
    → leb tier (result_tier row) ≡ false
    → insert_row row (above ++ rest) ≡ above ++ insert_row row rest
unfolding insert_row
insert_past row tier [] rest h e = refl
insert_past row tier (a ∷ above) rest (same, h) e =
    rw (same, e) (ap (◌∷◌ a) (insert_past row tier above rest h e))

insert_front :
    (row : ResultRow) (tier : ℕ) (same rest : List ResultRow)
    → OfTier tier same
    → leb tier (result_tier row) ≡ true
    → insert_row row rest ≡ row ∷ rest
    → insert_row row (same ++ rest) ≡ row ∷ (same ++ rest)
unfolding insert_row
insert_front row tier [] rest h e k = k
insert_front row tier (a ∷ same) rest (at_tier, h) e k = rw (at_tier, e) refl

insert_last :
    (row : ResultRow) (rows : List ResultRow) → OfTier 0 rows → insert_row row rows ≡ row ∷ rows
unfolding insert_row
insert_last row [] h = refl
insert_last row (a ∷ rows) (at_tier, h) = rw at_tier (ground arith)

tier-cases :
    (row : ResultRow) → (result_tier row ≡ 2) ⊎ ((result_tier row ≡ 1) ⊎ (result_tier row ≡ 0))
tier-cases row = grind (arith, result_tier-le row)

module _ (row : ResultRow) (rows : List ResultRow) where
  abbrev lower_rows : List ResultRow
  lower_rows = of_tier 1 rows ++ of_tier 0 rows

  at_bottom : insert_row row (of_tier 0 rows) ≡ row ∷ of_tier 0 rows
  at_bottom = insert_last row (of_tier 0 rows) (of_tier-OfTier 0 rows)

  at_middle : leb 1 (result_tier row) ≡ true → insert_row row lower_rows ≡ row ∷ lower_rows
  at_middle e =
      insert_front row 1 (of_tier 1 rows) (of_tier 0 rows) (of_tier-OfTier 1 rows) e at_bottom

  past_official :
      leb 2 (result_tier row) ≡ false
      → insert_row row (of_tier 2 rows ++ lower_rows) ≡ of_tier 2 rows ++ insert_row row lower_rows
  past_official e = insert_past row 2 (of_tier 2 rows) lower_rows (of_tier-OfTier 2 rows) e

  grouped_insert :
      insert_row row (of_tier 2 rows ++ lower_rows)
      ≡ of_tier 2 (row ∷ rows) ++ (of_tier 1 (row ∷ rows) ++ of_tier 0 (row ∷ rows))
  grouped_insert = elim (tier-cases row) [
    | inl e ↦
        insert_front row 2 (of_tier 2 rows) lower_rows (of_tier-OfTier 2 rows) (rw e refl)
          (at_middle (rw e refl))
        ∙ rw e refl
    | inr (inl e) ↦
        past_official (rw e refl) ∙ ap (◌++◌ (of_tier 2 rows)) (at_middle (rw e refl)) ∙ rw e refl
    | inr (inr e) ↦
        past_official (rw e refl)
        ∙ ap (◌++◌ (of_tier 2 rows)) (
            insert_past row 1 (of_tier 1 rows) (of_tier 0 rows) (of_tier-OfTier 1 rows) (rw e refl)
            ∙ ap (◌++◌ (of_tier 1 rows)) at_bottom)
        ∙ rw e refl
  ]

-- Sorting by tiers only regroups the rows: the official ones, then the verified ones, then the
-- rest, each group in the order that the ranking gave.
pub order_results_by_tier-of_tier :
    (rows : List ResultRow)
    → order_results_by_tier rows
      ≡ of_tier tier_official rows ++ (of_tier tier_verified rows ++ of_tier tier_unverified rows)
unfolding order_results_by_tier
order_results_by_tier-of_tier [] = refl
order_results_by_tier-of_tier (row ∷ rows) =
    ap (insert_row row) (order_results_by_tier-of_tier rows) ∙ grouped_insert row rows
