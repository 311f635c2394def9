-- ===== src/Tests/Tiers.antt =====
-- The order of concrete rows.
use discovery_application.Base.{
  ◌≡◌, refl, String, Bool, true, false, none, some, List, [], ◌∷◌, ◌++◌,
}
use discovery_application.Search.Application.{Item}
use discovery_application.Search.Tiers.{
  ResultRow, result_tier, insert_row, order_results_by_tier, count_badge_tiers, of_tier,
}
use discovery_application.Search.Tiers.Grouped

tiers : Unit {0}
unfolding result_tier insert_row order_results_by_tier count_badge_tiers
tiers = tt

abbrev entry : String → Item
entry id = record {
  item_id = id;
  canonical_id = none;
  name = id;
  source = record { provider = none; url = none };
  provenance = [];
  artifacts_source_url = none;
}

abbrev row : String → Bool → ResultRow
row id badge = record { item = entry id; verified_badge = badge }

abbrev official : String → ResultRow
official id = record {
  item = record (entry id) {
    provenance = record { provider = some "official_connectors"; url = none } ∷ [];
  };
  verified_badge = false;
}

abbrev shown : List ResultRow
shown = row "a" false ∷ row "b" true ∷ official "c" ∷ row "d" true ∷ []

ordered :
    (order_results_by_tier shown ≡ official "c" ∷ row "b" true ∷ row "d" true ∷ row "a" false ∷ [])
    × (count_badge_tiers shown ≡ (2, 1))
unfolding tiers
ordered = (refl, refl)

order_results_by_tier-of_tier_example :
    order_results_by_tier shown ≡ of_tier 2 shown ++ (of_tier 1 shown ++ of_tier 0 shown)
order_results_by_tier-of_tier_example = Grouped.order_results_by_tier-of_tier shown
