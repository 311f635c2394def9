-- ===== src/Search/Tiers.antt =====
-- The order in which a search shows its rows: `_result_tier`, `order_results_by_tier` and
-- `count_badge_tiers` of platform/backend/app/verification/bridge.py. Python's stable sort by a
-- key, greatest first, is insertion from the end of the list.
pub mod Grouped
use discovery_application.Base.{
  ℕ, ◌+◌, ◌≤◌, ◌≡◌, refl, sym, ◌∙◌, ap, arith, String, Bool, true, false, Option, none, some, List,
  [], ◌∷◌, ◌++◌, any, keep, count, leb, ◌==◌, str_eq, if◌then◌else◌, Bool-cases, inl, inr, All,
  length,
}
use discovery_application.Search.Application.{DiscoverySource, Item}

abbrev pub tier_unverified : ℕ
tier_unverified = 0

abbrev pub tier_verified : ℕ
tier_verified = 1

abbrev pub tier_official : ℕ
tier_official = 2

-- A row of the results, with the badge that was attached to it.
pub record ResultRow : Type 0 where
  pub item : Item
  pub verified_badge : Bool

abbrev is_official_source : DiscoverySource → Bool
is_official_source source = elim source.provider [
  | none ↦ false
  | some provider ↦ str_eq provider "official_connectors"
]

unfoldable pub result_tier : ResultRow → ℕ
result_tier row =
    if any is_official_source row.item.provenance
    then tier_official
    else if row.verified_badge
    then tier_verified
    else tier_unverified

-- A row goes before the rows that follow it unless one of a higher tier stands there.
unfoldable pub insert_row : ResultRow → List ResultRow → List ResultRow
insert_row row [] = row ∷ []
insert_row row (other ∷ rows) =
    let rest = insert_row row rows in
    if leb (result_tier other) (result_tier row) then row ∷ other ∷ rows else other ∷ rest

unfoldable pub order_results_by_tier : List ResultRow → List ResultRow
unfolding insert_row
order_results_by_tier [] = []
order_results_by_tier (row ∷ rows) = insert_row row (order_results_by_tier rows)

-- The counts of verified and of official rows.
unfoldable pub count_badge_tiers : List ResultRow → ℕ × ℕ
count_badge_tiers rows = (
  count (λ row. result_tier row == tier_verified) rows,
  count (λ row. result_tier row == tier_official) rows,
)

abbrev pub of_tier : ℕ → List ResultRow → List ResultRow
of_tier tier rows = keep (λ row. result_tier row == tier) rows
