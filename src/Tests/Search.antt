-- ===== src/Tests/Search.antt =====
-- Searches over a small catalog.
use discovery_application.Base.{
  ℕ, ◌≡◌, refl, arith, String, true, false, Option, some, none, List, [], ◌∷◌, map, take, is_nil,
}
use discovery_application.Search.Application.{
  Item, RankedItem, Settings, Discovered, item_repo_identities, is_owned, claim, claim_each,
  merge_items, cache_key, is_official, search_db_first, servable_cached_results, shortlist_cap,
  set_owner,
}
use discovery_application.Search.Application.Serving

search : Unit {0}
unfolding item_repo_identities is_owned claim claim_each merge_items cache_key is_official
    search_db_first servable_cached_results set_owner
search = tt

abbrev found_at : String → String → Item
found_at id url = record {
  item_id = id;
  canonical_id = none;
  name = id;
  source = record { provider = none; url = some url };
  provenance = [];
  artifacts_source_url = none;
}

-- An address stands for its own repository.
abbrev own : String → Option String
own url = some url

abbrev at_once : List Item → ℕ → List RankedItem
at_once items n = take n (map (λ i. record { item = i }) items)

abbrev caps : Settings
caps = record { search_verified_result_cap = 2; search_cold_miss_result_cap = 7 }

abbrev no_answer : ℕ → Option Discovered
no_answer n = none

abbrev entry : String → RankedItem
entry id = record { item = found_at id id }

merged :
    map cache_key
      (merge_items own (found_at "a" "u" ∷ []) (found_at "b" "u" ∷ found_at "c" "v" ∷ []))
    ≡ "a" ∷ "c" ∷ []
unfolding search
merged = refl

search_db_first-outage_example :
    ((search_db_first own caps
        ("a" ∷ [])
        at_once
        no_answer
        (entry "a" ∷ entry "b" ∷ [])
        none).ranked
      ≡ at_once (merge_items own (found_at "a" "a" ∷ []) []) (shortlist_cap caps none))
    × ((search_db_first own caps
          ("a" ∷ [])
          at_once
          no_answer
          (entry "a" ∷ entry "b" ∷ [])
          none).metadata.db_fallback
        ≡ true)
    × (is_nil (merge_items own (found_at "a" "a" ∷ []) []) ≡ false)
unfolding search
search_db_first-outage_example =
    Serving.search_db_first-outage own caps ("a" ∷ []) at_once no_answer (entry "a") []
      (entry "a" ∷ entry "b" ∷ []) none refl (omega arith) (λ n. refl)
