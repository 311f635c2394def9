-- ===== src/Verification/BadgeLookup.antt =====
-- How search results get their badges: `attach_verification_badges` and `_item_identities` of
-- platform/backend/app/verification/bridge.py, and `select_badge_rows` of repository.py beside it.
-- `repo_identity` is normalize_repo_identity, `sorted_set` is Python's `sorted(set(xs))`, and
-- `command` is the database's answer to the SELECT, `none` where it raises.
pub mod Shared
use discovery_application.Base.{
  ℕ, String, Bool, true, false, not, ◌&&◌, Option, none, some, List, [], ◌∷◌, ◌++◌, map, on_some,
  is_nil, str_eq, take, if◌then◌else◌,
}
use discovery_application.Verification.Models.{McpServerRecord, ServerStatus}
use discovery_application.Verification.Timeouts.{text_or_empty}
use discovery_application.Verification.Pipeline.{is_set}
use discovery_application.Verification.UserTest.{TestedItem, registry_names, same_identity}

-- What `result.verification` holds.
pub record BadgeInfo : Type 0 where
  pub verified_badge : Bool
  pub verified_via_auth : Bool
  pub last_verified_via : Option String
  pub status : ServerStatus
  pub quality_score : ℕ
  pub invocation_verified : Bool

-- A ranked result: its item, the URLs of the item's provenance, and the badge.
pub record RankedResult : Type 0 where
  pub item : TestedItem
  pub provenance_urls : List (Option String)
  pub verification : Option BadgeInfo

pub record Identities : Type 0 where
  pub urls : List String
  pub names : List String
  pub identities : List String

-- The values that are set and not empty, as strings.
unfoldable pub set_values : List (Option String) → List String
set_values [] = []
set_values (x ∷ xs) = let rest = set_values xs in if is_set x then text_or_empty x ∷ rest else rest

unfoldable pub gather : (RankedResult → List String) → List RankedResult → List String
gather f [] = []
gather f (result ∷ results) = f result ++ gather f results

unfoldable pub badge_info : McpServerRecord → BadgeInfo
badge_info r = record {
  verified_badge = r.verified_badge;
  verified_via_auth = r.verified_via_auth;
  last_verified_via = r.last_verified_via;
  status = r.status;
  quality_score = r.quality_score;
  invocation_verified = r.invocation_verified;
}

-- What a dict built from the rows holds at a key: the last row that has it.
unfoldable pub find_last : (McpServerRecord → Bool) → List McpServerRecord → Option McpServerRecord
find_last p [] = none
find_last p (r ∷ rows) =
    let rest = find_last p rows in on_some rest some (if p r then some r else none)

-- What a dict filled by `setdefault` holds at a key: the first row that has it.
unfoldable pub find_first : (McpServerRecord → Bool) → List McpServerRecord → Option McpServerRecord
find_first p [] = none
find_first p (r ∷ rows) = let rest = find_first p rows in if p r then some r else rest

-- The first of the keys that finds a row.
unfoldable pub first_hit : (String → Option McpServerRecord) → List String → Option McpServerRecord
first_hit find [] = none
first_hit find (key ∷ keys) = let rest = first_hit find keys in on_some (find key) some rest

abbrev pub has_source_url : String → McpServerRecord → Bool
has_source_url url r = not (str_eq r.source_url "") && str_eq r.source_url url

abbrev pub has_registry_name : String → McpServerRecord → Bool
has_registry_name name r = is_set r.registry_name && str_eq (text_or_empty r.registry_name) name

module _ (repo_identity : Option String → Option String) where
  abbrev pub has_identity : String → McpServerRecord → Bool
  has_identity identity r = same_identity identity (repo_identity r.repository_url)

  unfoldable pub item_identities : RankedResult → Identities
  unfolding set_values registry_names
  item_identities result =
      let urls = set_values (result.item.source_url ∷ result.provenance_urls) in
      record {
        urls = urls;
        names = registry_names result.item;
        identities = set_values (map (λ url. repo_identity (some url)) urls);
      }

  -- The row of a result: by URL, then by registry name, then by the identity of the repository.
  unfoldable pub find_match : List McpServerRecord → RankedResult → Option McpServerRecord
  unfolding find_last find_first first_hit item_identities
  find_match rows result =
      let found = item_identities result in
      let by_url = first_hit (λ url. find_last (has_source_url url) rows) found.urls in
      let by_name = first_hit (λ name. find_last (has_registry_name name) rows) found.names in
      let by_identity =
        first_hit (λ identity. find_first (has_identity identity) rows) found.identities in
      on_some by_url some (on_some by_name some by_identity)

  unfoldable pub attach : List McpServerRecord → RankedResult → RankedResult
  unfolding find_match badge_info
  attach rows result =
      on_some (find_match rows result) (λ r. record result { verification = some (badge_info r) })
        result

module _ (command : List String → List String → List String → Option (List McpServerRecord)) where
  -- One SELECT, for the first hundred keys of each kind.
  unfoldable pub select_badge_rows :
      List String → List String → List String → Option (List McpServerRecord)
  select_badge_rows urls names identities =
      if is_nil urls && is_nil names && is_nil identities
      then some []
      else command (take 100 urls) (take 100 names) (take 100 identities)

  unfoldable pub attach_verification_badges :
      (Option String → Option String)
      → (List String → List String)
      → List RankedResult
      → List RankedResult
  unfolding select_badge_rows attach item_identities gather
  attach_verification_badges repo_identity sorted_set results =
      let urls = gather (λ result. (item_identities repo_identity result).urls) results in
      let names = gather (λ result. (item_identities repo_identity result).names) results in
      let identities =
        gather (λ result. (item_identities repo_identity result).identities) results in
      on_some (select_badge_rows (sorted_set urls) (sorted_set names) (sorted_set identities))
        (λ rows. map (attach repo_identity rows) results) results
