-- ===== src/Search/Application.antt =====
-- The search coordinator, platform/backend/app/search/application.py, and the fields of
-- platform/backend/app/models/item.py that it reads. What other services answer is an argument:
-- the catalog's hits for the query, the keys that hold a verified badge, the ranking of items
-- under a limit, and the live discovery for a shortfall, which is nothing where discovery is
-- off or raised.
pub mod Merge
pub mod Serving
use mathlib.Core.Option
use discovery_application.Base.{
  ℕ, ◌-◌, ◌≤◌, ◌<◌, min, max, String, Bool, true, false, not, ◌||◌, Option, none, some, List, [],
  ◌∷◌, ◌++◌, map, length, take, any, keep, is_nil, leb, ◌==◌, str_eq, values, if◌then◌else◌, Dict,
  lookup, put, is_some, on_some, All, In,
}

pub record DiscoverySource : Type 0 where
  pub provider : Option String
  pub url : Option String

pub record Item : Type 0 where
  pub item_id : String
  pub canonical_id : Option String
  pub name : String
  pub source : DiscoverySource
  pub provenance : List DiscoverySource
  pub artifacts_source_url : Option String

-- A ranked item; its scores are not read here.
pub record RankedItem : Type 0 where
  pub item : Item

pub record Settings : Type 0 where
  pub search_verified_result_cap : ℕ
  pub search_cold_miss_result_cap : ℕ

pub record ApplicationSearchMetadata : Type 0 where
  pub mode : String
  pub sources_attempted : List String
  pub sources_succeeded : List String
  pub sources_failed : List String
  pub cached_results : ℕ
  pub live_candidates : ℕ
  pub approved_count : ℕ
  pub rejected_count : ℕ
  pub db_fallback : Bool

pub record ApplicationSearchResult : Type 0 where
  pub ranked : List RankedItem
  pub metadata : ApplicationSearchMetadata

-- The two results of `discover_and_catalog`; candidates and rejections are only counted.
pub record Discovered : Type 0 where
  pub sources_attempted : List String
  pub sources_succeeded : List String
  pub sources_failed : List String
  pub candidates : ℕ
  pub approved : List Item
  pub rejected : ℕ

-- `limit or default`.
abbrev pub limit_or : Option ℕ → ℕ → ℕ
limit_or none default = default
limit_or (some n) default = if n == 0 then default else n

abbrev pub is_among : List String → String → Bool
is_among keys key = any (λ k. str_eq k key) keys

unfoldable pub is_official : Item → Bool
is_official item =
    any (λ source. on_some source.provider (λ p. str_eq p "official_connectors") false)
      item.provenance

unfoldable pub cache_key : Item → String
cache_key item =
    on_some item.canonical_id (λ id. if str_eq id "" then item.item_id else id) item.item_id

abbrev url_list : Option String → List String
url_list none = []
url_list (some url) = url ∷ []

abbrev urls_of : List DiscoverySource → List String
urls_of [] = []
urls_of (source ∷ sources) = url_list source.url ++ urls_of sources

abbrev pub identities_of : (String → Option String) → List String → List String
identities_of repo_identity [] = []
identities_of repo_identity (url ∷ urls) =
    on_some (repo_identity url) (λ id. if str_eq id "" then [] else id ∷ []) []
    ++ identities_of repo_identity urls

-- `_item_repo_identities`, over `normalize_repo_identity`; an identity may be listed twice.
unfoldable pub item_repo_identities : (String → Option String) → Item → List String
item_repo_identities repo_identity item =
    identities_of repo_identity
      (url_list item.source.url ++ urls_of item.provenance ++ url_list item.artifacts_source_url)

-- The two dicts of `_merge_items`.
pub record Merged : Type 0 where
  pub items : Dict Item
  pub repo_owner : Dict String

-- `for identity in identities: repo_owner.setdefault(identity, key)`.
unfoldable pub set_owner : List String → String → Dict String → Dict String
set_owner [] key owners = owners
set_owner (id ∷ ids) key owners =
    set_owner ids key (if is_some (lookup id owners) then owners else put id key owners)

module _ (repo_identity : String → Option String) where
  unfoldable pub is_owned : Item → Merged → Bool
  is_owned item m =
      any (λ id. is_some (lookup id m.repo_owner)) (item_repo_identities repo_identity item)

  unfoldable pub claim : Bool → Item → Merged → Merged
  unfolding set_owner is_owned
  claim prefer_new item m =
      let key = cache_key item in
      if is_owned item m
      then m
      else if is_some (lookup key m.items)
      then if prefer_new then record m { items = put key item m.items } else m
      else record {
        items = put key item m.items;
        repo_owner = set_owner (item_repo_identities repo_identity item) key m.repo_owner;
      }

  unfoldable pub claim_each : Bool → List Item → Merged → Merged
  claim_each prefer_new [] m = m
  claim_each prefer_new (item ∷ items) m = claim_each prefer_new items (claim prefer_new item m)

  unfoldable pub merge_items : List Item → List Item → List Item
  unfolding claim_each
  merge_items cached live =
      let start : Merged = record { items = []; repo_owner = [] } in
      let claimed = claim_each true live (claim_each false cached start) in values claimed.items

-- `_servable_cached_results`, as the keys of the items that pass.
unfoldable pub servable_cached_results : List String → List Item → List String
servable_cached_results badge_keys items =
    map cache_key (keep (λ item. is_among badge_keys (cache_key item) || is_official item) items)

abbrev pub is_servable : List String → RankedItem → Bool
is_servable servable entry = is_among servable (cache_key entry.item)

-- `_limit_entries`.
unfoldable pub limit_entries : List RankedItem → List String → Option ℕ → List RankedItem
limit_entries cached servable limit =
    let entries = keep (is_servable servable) cached in
    take (limit_or limit (length entries)) entries

-- `_discovery_metadata`, with `arcadedb` in front of both lists, as both its calls have it.
unfoldable pub discovery_metadata : Option Discovered → ℕ → Bool → ApplicationSearchMetadata
discovery_metadata discovery cached db_fallback = record {
  mode = "merged";
  sources_attempted = "arcadedb" ∷ on_some discovery (λ d. d.sources_attempted) [];
  sources_succeeded = "arcadedb" ∷ on_some discovery (λ d. d.sources_succeeded) [];
  sources_failed = on_some discovery (λ d. d.sources_failed) [];
  cached_results = cached;
  live_candidates = on_some discovery (λ d. d.candidates) 0;
  approved_count = on_some discovery (λ d. length d.approved) 0;
  rejected_count = on_some discovery (λ d. d.rejected) 0;
  db_fallback = db_fallback;
}

abbrev pub catalog_metadata : String → ℕ → ApplicationSearchMetadata
catalog_metadata mode cached = record {
  mode = mode;
  sources_attempted = "arcadedb" ∷ [];
  sources_succeeded = "arcadedb" ∷ [];
  sources_failed = [];
  cached_results = cached;
  live_candidates = 0;
  approved_count = 0;
  rejected_count = 0;
  db_fallback = false;
}

abbrev pub items_of : List RankedItem → List Item
items_of entries = map (λ entry. entry.item) entries

abbrev pub approved_of : Option Discovered → List Item
approved_of discovery = on_some discovery (λ d. d.approved) []

abbrev pub shortlist_cap : Settings → Option ℕ → ℕ
shortlist_cap settings limit =
    min (limit_or limit settings.search_cold_miss_result_cap) settings.search_cold_miss_result_cap

module _ (repo_identity : String → Option String) (settings : Settings) (badge_keys : List String)
    (rank : List Item → ℕ → List RankedItem) (live : ℕ → Option Discovered) where
  -- `search` under the mode `cached`.
  unfoldable pub search_cached : List RankedItem → Option ℕ → ApplicationSearchResult
  unfolding limit_entries servable_cached_results
  search_cached cached limit =
      let ranked =
        limit_entries cached (servable_cached_results badge_keys (items_of cached)) limit in
      record { ranked = ranked; metadata = catalog_metadata "cached" (length ranked) }

  -- `_search_db_first`, on the catalog's hits.
  unfoldable pub search_db_first : List RankedItem → Option ℕ → ApplicationSearchResult
  unfolding limit_entries servable_cached_results merge_items discovery_metadata
  search_db_first cached limit =
      let cap = shortlist_cap settings limit in
      let servable = servable_cached_results badge_keys (items_of cached) in
      let verified_db = keep (is_servable servable) cached in
      let discovery = live (max (cap - length verified_db) 1) in
      let merged = merge_items repo_identity (items_of verified_db) (approved_of discovery) in
      let few = rank (items_of verified_db) cap in
      let filled = rank merged cap in
      let fallback = rank (items_of (limit_entries cached servable (some cap))) cap in
      let cached_keys = map cache_key (items_of verified_db) in
      if leb settings.search_verified_result_cap (length verified_db)
      then record { ranked = few; metadata = catalog_metadata "merged" (length few) }
      else if not (is_nil merged)
      then record {
        ranked = filled;
        metadata =
            discovery_metadata discovery (length (keep (is_servable cached_keys) filled))
              (is_nil (approved_of discovery));
      }
      else record {
        ranked = fallback;
        metadata = discovery_metadata discovery (length fallback) true;
      }
