-- ===== src/Tests/Prefilter.antt =====
-- The prefilter on concrete records.
use discovery_application.Base.{
  ◌≡◌, refl, String, false, Option, none, some, [], ◌∷◌, str_eq, if◌then◌else◌, ends_with,
}
use discovery_application.Verification.Models.{McpServerRecord}
use discovery_application.Verification.Install.{RegistryType}
use discovery_application.Verification.Prefilter.{
  ParsedUrl, PrefilterStatus, SizeLimits, PackageSizeEstimate, is_under, host_matches_excluded,
  known_incompatible_reason, is_known_incompatible_host, install_cmd_is_incompatible,
  prefilter_server, known, over_limit, describe_size, size_prefilter_failure, size_check,
  prefilter_server_with_size, result_of,
}
use discovery_application.Verification.Prefilter.Screen
use discovery_application.Verification.Prefilter.Screen.{IsAddressable}
use discovery_application.Verification.Queue.{Attempted, crashed, WorkerState, verification_loop}
use discovery_application.Verification.Queue.Poison
use discovery_application.Verification.Registry.{in_order}
use discovery_application.Tests.Samples.{server}
use discovery_application.Tests.Verify.{drivers, here}

unfoldable pub prefilter : Unit {0}
unfolding drivers ends_with is_under host_matches_excluded known_incompatible_reason
    is_known_incompatible_host install_cmd_is_incompatible prefilter_server known over_limit
    describe_size size_prefilter_failure size_check prefilter_server_with_size
prefilter = tt

-- Three URLs, and an exception for every other text.
abbrev pub parse : String → Option ParsedUrl
parse url =
    if str_eq url "https://mcp.example.com"
    then some
        (record { scheme = "https"; netloc = "mcp.example.com"; hostname = some "mcp.example.com" })
    else if str_eq url "https://server.smithery.ai/x"
    then some (record {
      scheme = "https";
      netloc = "server.smithery.ai";
      hostname = some "server.smithery.ai";
    })
    else if str_eq url "mcp.example.com"
    then some (record { scheme = ""; netloc = ""; hostname = none })
    else none

abbrev at_url : String → McpServerRecord
at_url url = record (server "a") { endpoint_url = some url }

screened :
    (prefilter_server parse none (server "a") ≡ some (result_of []))
    × (prefilter_server parse none (at_url "https://server.smithery.ai/x")
        ≡ some (record {
          passed = false;
          status = PrefilterStatus.rejected;
          failures = "smithery_hosted_incompatible" ∷ [];
        }))
    × (prefilter_server parse none (at_url "mcp.example.com")
        ≡ some (result_of ("endpoint URL is not well-formed: mcp.example.com" ∷ [])))
    × (prefilter_server parse none (at_url "https://[oops") ≡ none)
unfolding prefilter
screened = (refl, refl, refl, refl)

abbrev limits : SizeLimits
limits = record { npm_unpacked_size_limit_bytes = 62_914_560; pypi_dependency_limit = 40 }

abbrev large : RegistryType → String → PackageSizeEstimate
large registry_type identifier = record {
  bytes_estimate = some 73_400_320;
  dependency_count = none;
}

oversized :
    prefilter_server_with_size parse limits large none here
    ≡ some (
        result_of (
          "package_too_large: install closure 70MB exceeds the sandbox install limit (npm 60MB / pypi 40 deps)"
          ∷ []))
unfolding prefilter
oversized = refl

prefilter_server-passed_example : IsAddressable parse none (server "a")
unfolding prefilter
prefilter_server-passed_example =
    Screen.prefilter_server-passed parse none (server "a") (result_of []) refl refl

abbrev poisoned : WorkerState
poisoned = record { servers = at_url "https://[oops" ∷ server "b" ∷ []; decisions = [] }

abbrev crashing : McpServerRecord → Attempted
crashing r = crashed "down"

verification_loop-unparsable_example :
    verification_loop in_order none
      (prefilter_server parse none)
      crashing
      ((1, 2) ∷ (3, 4) ∷ [])
      poisoned
    ≡ poisoned
unfolding prefilter
verification_loop-unparsable_example =
    Poison.verification_loop-unparsable parse none crashing ((1, 2) ∷ (3, 4) ∷ []) poisoned
      (at_url "https://[oops") (server "b" ∷ []) refl refl refl refl refl
