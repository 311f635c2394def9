-- ===== src/Tests/BadgeLookup.antt =====
-- Badges for results, over one row.
use discovery_application.Base.{◌≡◌, refl, String, false, Option, none, some, List, [], ◌∷◌, map}
use discovery_application.Verification.Registry.{Rows}
use discovery_application.Verification.UserTest.{registry_names}
use discovery_application.Verification.BadgeLookup.{
  RankedResult, gather, set_values, badge_info, find_last, find_first, first_hit, item_identities,
  find_match, attach, select_badge_rows, attach_verification_badges,
}
use discovery_application.Verification.BadgeLookup.Shared
use discovery_application.Verification.BadgeLookup.Shared.{AreEarned, answered_rows}
use discovery_application.Tests.Samples.{server}

badge_test : Unit {0}
unfolding gather set_values badge_info find_last find_first first_hit item_identities find_match
    attach select_badge_rows attach_verification_badges registry_names
badge_test = tt

abbrev result_at : String → RankedResult
result_at url = record {
  item = record {
    item_id = "i1";
    name = "mail";
    description = "";
    source_url = some url;
    is_mcp_registry = false;
    source_id = none;
    tool_server_id = none;
  };
  provenance_urls = none ∷ [];
  verification = none;
}

abbrev no_identity : Option String → Option String
no_identity url = none

abbrev same : List String → List String
same xs = xs

abbrev answer : List String → List String → List String → Option Rows
answer urls names identities = some (server "https://a" ∷ [])

abbrev raises : List String → List String → List String → Option Rows
raises urls names identities = none

badges :
    (map
        (λ r. r.verification)
        (attach_verification_badges answer no_identity same
          (result_at "https://a" ∷ result_at "https://b" ∷ []))
      ≡ some (badge_info (server "https://a")) ∷ none ∷ [])
    × (attach_verification_badges raises no_identity same (result_at "https://a" ∷ [])
        ≡ result_at "https://a" ∷ [])
unfolding badge_test
badges = (refl, refl)

attach_verification_badges-AreEarned_example :
    AreEarned no_identity
      (answered_rows no_identity answer same (result_at "https://a" ∷ result_at "https://b" ∷ []))
      (result_at "https://a" ∷ result_at "https://b" ∷ [])
      (attach_verification_badges answer no_identity same
        (result_at "https://a" ∷ result_at "https://b" ∷ []))
attach_verification_badges-AreEarned_example =
    Shared.attach_verification_badges-AreEarned no_identity answer same
      (result_at "https://a" ∷ result_at "https://b" ∷ []) (refl, (refl, tt))
