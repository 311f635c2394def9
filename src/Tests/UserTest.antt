-- ===== src/Tests/UserTest.antt =====
-- User tests over a concrete table.
use discovery_application.Base.{
  ◌≡◌, refl, String, true, false, Option, none, some, [], ◌∷◌, In, length, contains,
}
use discovery_application.Verification.Models.{McpServerRecord, Transport}
use discovery_application.Verification.Registry.{
  Rows, in_order, get_by_registry_name, get_by_source_url, list_status, create, update,
}
use discovery_application.Verification.Registry.InOrder.{in_order-IsEngine}
use discovery_application.Verification.UserTest.{
  TestedItem, registry_names, success_of_test, new_record, first_named, existing_row,
  transport_of_test, record_user_verified_success,
}
use discovery_application.Verification.UserTest.Badge
use discovery_application.Verification.UserTest.Badge.{IsUserVerified, BelongsTo}
use discovery_application.Tests.Samples.{server}

user_test : Unit {0}
unfolding contains get_by_registry_name get_by_source_url list_status create update registry_names
    success_of_test new_record first_named existing_row transport_of_test
    record_user_verified_success
user_test = tt

abbrev tested : String → TestedItem
tested url = record {
  item_id = "i1";
  name = "mail";
  description = "";
  source_url = some url;
  is_mcp_registry = false;
  source_id = none;
  tool_server_id = some "io.example/mail";
}

abbrev no_identity : Option String → Option String
no_identity url = none

abbrev table : Rows
table = server "https://a" ∷ []

recorded :
    (length
        (record_user_verified_success in_order no_identity "n" (tested "https://a") true [] 7 table)
      ≡ 1)
    × (length (
          record_user_verified_success in_order no_identity "n"
            (tested "https://b")
            true
            []
            7
            table)
        ≡ 2)
    × (transport_of_test in_order no_identity (tested "https://b") none ≡ Transport.remote)
unfolding user_test
recorded = (refl, refl, refl)

record_user_verified_success-IsUserVerified_example :
    (r : McpServerRecord) × In r
      (record_user_verified_success in_order no_identity "n" (tested "https://b") true [] 7 table)
    × BelongsTo no_identity (tested "https://b") r
    × IsUserVerified true 7 r
record_user_verified_success-IsUserVerified_example =
    Badge.record_user_verified_success-IsUserVerified in_order-IsEngine no_identity "n"
      (tested "https://b") true [] 7 table
