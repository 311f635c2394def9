-- ===== src/Search/Application/Serving.antt =====
-- What a search serves.
use discovery_application.Base.{
  ℕ, zero, suc, ◌≤◌, ◌<◌, ◌≡◌, refl, arith, String, true, false, Option, List, [], ◌∷◌, keep, take,
  length, leb, leb_of_le, is_nil,
}
use discovery_application.Search.Application.{
  Item, RankedItem, Settings, Discovered, merge_items, search_db_first, items_of, is_servable,
  servable_cached_results, limit_entries, approved_of, shortlist_cap,
}
use discovery_application.Search.Application.Merge.{merge_items-not_nil}

take_nil : {A : Type 0} (n : ℕ) → take {A = A} n [] ≡ []
take_nil zero = refl
take_nil (suc n) = refl

leb_of_lt : (a b : ℕ) → b < a → leb a b ≡ false
leb_of_lt a b h = ground arith

module _ (repo_identity : String → Option String) (settings : Settings) (badge_keys : List String)
    (rank : List Item → ℕ → List RankedItem) where
  -- The hits of the catalog that may be served.
  abbrev pub verified_hits : List RankedItem → List RankedItem
  verified_hits cached =
      keep (is_servable (servable_cached_results badge_keys (items_of cached))) cached

  -- With enough servable hits in the catalog, live discovery has no influence on the result.
  pub search_db_first-early :
      (live other : ℕ → Option Discovered) (cached : List RankedItem) (limit : Option ℕ)
      → settings.search_verified_result_cap ≤ length (verified_hits cached)
      → search_db_first repo_identity settings badge_keys rank live cached limit
        ≡ search_db_first repo_identity settings badge_keys rank other cached limit
  unfolding search_db_first
  search_db_first-early live other cached limit h = rw (leb_of_le _ _ h)

  -- With a servable hit in the catalog, though fewer than the cap, an outage of live discovery
  -- still serves the ranking of a list that is not empty, the merged hits of the catalog, and
  -- the metadata says so.
  pub search_db_first-outage :
      (live : ℕ → Option Discovered) (hit : RankedItem) (hits cached : List RankedItem)
      (limit : Option ℕ)
      → verified_hits cached ≡ hit ∷ hits
      → length (hit ∷ hits) < settings.search_verified_result_cap
      → ((n : ℕ) → approved_of (live n) ≡ [])
      → ((search_db_first repo_identity settings badge_keys rank live cached limit).ranked
          ≡ rank
              (merge_items repo_identity (items_of (hit ∷ hits)) [])
              (shortlist_cap settings limit))
        × ((search_db_first repo_identity settings badge_keys rank live cached
              limit).metadata.db_fallback
            ≡ true)
        × (is_nil (merge_items repo_identity (items_of (hit ∷ hits)) []) ≡ false)
  unfolding search_db_first
  search_db_first-outage live hit hits cached limit found few out =
      rw
        (
          found,
          leb_of_lt _ _ few,
          out _,
          merge_items-not_nil repo_identity hit.item (items_of hits) [],
        )
        (refl, refl, refl)

  -- Without a servable hit, and with nothing approved by live discovery, the search ranks the
  -- empty list, whatever else the catalog found.
  pub search_db_first-cold_miss :
      (live : ℕ → Option Discovered) (cached : List RankedItem) (limit : Option ℕ)
      → 0 < settings.search_verified_result_cap
      → verified_hits cached ≡ []
      → ((n : ℕ) → approved_of (live n) ≡ [])
      → (search_db_first repo_identity settings badge_keys rank live cached limit).ranked
        ≡ rank [] (shortlist_cap settings limit)
  unfolding search_db_first limit_entries
  search_db_first-cold_miss live cached limit h miss out =
      rw (miss, leb_of_lt _ _ h, out _, take_nil {A = RankedItem}) refl
