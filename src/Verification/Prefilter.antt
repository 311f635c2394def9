-- ===== src/Verification/Prefilter.antt =====
-- The static prefilter, platform/backend/app/verification/prefilter.py, with the size estimate of
-- platform/backend/app/sandbox/package_size.py. `urlparse` of Python is a parameter, none where it
-- raises ValueError; so is the registry lookup of a package's size.
pub mod Screen
use Prim.Native.String.{◌++◌ as str_append}
use text.Mathlib.Text.{starts_with}
use discovery_application.Base.{
  ℕ, ◌*◌, ◌/◌, String, Bool, true, false, not, ◌&&◌, ◌||◌, Option, none, some, List, [], ◌∷◌, ◌++◌,
  any, find?, is_some, is_nil, ltb, on_some, str_eq, if◌then◌else◌, lower, contains, ends_with,
  strip, is_empty, decimal,
}
use mathlib.Core.Option
use discovery_application.Verification.Models.{McpServerRecord, is_local}
use discovery_application.Verification.Timeouts.{text_or_empty}
use discovery_application.Verification.Install.{RegistryType, local_package_from_install_cmd}

pub data PrefilterStatus : Type 0 where
  passed malformed rejected : PrefilterStatus

pub record PrefilterResult : Type 0 where
  pub passed : Bool
  pub status : PrefilterStatus
  pub failures : List String

-- The parts of a URL that the prefilter reads.
pub record ParsedUrl : Type 0 where
  pub scheme : String
  pub netloc : String
  pub hostname : Option String

abbrev pub known_incompatible_hosts : List (String × String)
known_incompatible_hosts =
    ("smithery.ai", "smithery_hosted_incompatible")
    ∷ ("glama.ai", "glama_hosted_gateway_incompatible")
    ∷ ("pulsemcp.com", "pulsemcp_hosted_proxy_incompatible")
    ∷ ("composio.dev", "composio_hosted_gateway_incompatible")
    ∷ ("mcp.zapier.com", "zapier_hosted_gateway_incompatible")
    ∷ ("waystation.ai", "waystation_hosted_gateway_incompatible")
    ∷ []

abbrev pub incompatible_install_markers : List String
incompatible_install_markers = "@smithery/cli" ∷ []

-- `host == known or host.endswith(f".{known}")`.
unfoldable pub is_under : String → String → Bool
is_under host known = str_eq host known || ends_with host (str_append "." known)

-- `_host_matches_excluded`.
unfoldable pub host_matches_excluded : String → Option String
unfolding is_under
host_matches_excluded host =
    Option.map (λ entry. entry.1)
      (find? (λ (entry : String × String). is_under (lower host) entry.0) known_incompatible_hosts)

unfoldable pub install_cmd_is_incompatible : Option String → Bool
install_cmd_is_incompatible install_cmd =
    any (λ marker. contains (lower (text_or_empty install_cmd)) marker) incompatible_install_markers

abbrev pub rejected_for : String → PrefilterResult
rejected_for reason = record {
  passed = false;
  status = PrefilterStatus.rejected;
  failures = reason ∷ [];
}

-- The end of `prefilter_server`.
abbrev pub result_of : List String → PrefilterResult
result_of failures = record {
  passed = is_nil failures;
  status = if is_nil failures then PrefilterStatus.passed else PrefilterStatus.malformed;
  failures = failures;
}

module _ (urlparse : String → Option ParsedUrl) where
  unfoldable pub known_incompatible_reason : Option String → Option String
  unfolding host_matches_excluded
  known_incompatible_reason url =
      if is_empty (text_or_empty url)
      then none
      else on_some (urlparse (text_or_empty url))
          (λ parsed.
            let host = text_or_empty parsed.hostname in
            if is_empty host then none else host_matches_excluded host)
          none

  unfoldable pub is_known_incompatible_host : Option String → Bool
  is_known_incompatible_host url = is_some (known_incompatible_reason url)

  unfoldable pub is_smithery_hosted : Option String → Bool
  is_smithery_hosted url =
      on_some (known_incompatible_reason url)
        (λ reason. str_eq reason "smithery_hosted_incompatible") false

  abbrev shape_failures : McpServerRecord → String → ParsedUrl → List String
  shape_failures r endpoint parsed =
      if not (str_eq parsed.scheme "http" || str_eq parsed.scheme "https") || is_empty parsed.netloc
      then str_append "endpoint URL is not well-formed: " endpoint ∷ []
      else if starts_with r.source_url "file://"
      then "source_url must be an http(s) reference" ∷ []
      else []

  -- The resolver's answer about a host: a resolver that raised counts as an answer of yes.
  abbrev dns_failures : Option (String → Option Bool) → ParsedUrl → List String
  dns_failures dns_resolver parsed =
      let host = text_or_empty parsed.hostname in
      let resolves = on_some dns_resolver (λ f. on_some (f host) (λ b. b) true) true in
      if is_empty host || resolves
      then []
      else str_append "endpoint host does not resolve: " host ∷ []

  -- `prefilter_server`, none where `urlparse` raised.
  unfoldable pub prefilter_server :
      Option (String → Option Bool) → McpServerRecord → Option PrefilterResult
  prefilter_server dns_resolver r =
      let endpoint = strip (text_or_empty r.endpoint_url) in
      if is_local r.transport
      then if is_empty (strip (text_or_empty r.install_cmd))
        then some (result_of ("local server has no documented install command" ∷ []))
        else if install_cmd_is_incompatible r.install_cmd
        then some (rejected_for "third_party_proxy_install_command")
        else some (result_of [])
      else if is_empty endpoint
      then some (result_of ("remote server has no endpoint URL" ∷ []))
      else Option.map
          (λ parsed.
            on_some (known_incompatible_reason (some endpoint)) rejected_for
              (result_of (shape_failures r endpoint parsed ++ dns_failures dns_resolver parsed)))
          (urlparse endpoint)

-- The limits, which the environment of the process sets.
pub record SizeLimits : Type 0 where
  pub npm_unpacked_size_limit_bytes : ℕ
  pub pypi_dependency_limit : ℕ

pub record PackageSizeEstimate : Type 0 where
  pub bytes_estimate : Option ℕ
  pub dependency_count : Option ℕ

unfoldable pub known : PackageSizeEstimate → Bool
known e = is_some e.bytes_estimate || is_some e.dependency_count

unfoldable pub over_limit : SizeLimits → PackageSizeEstimate → Bool
over_limit limits e =
    on_some e.bytes_estimate (λ n. ltb limits.npm_unpacked_size_limit_bytes n)
      (on_some e.dependency_count (λ n. ltb limits.pypi_dependency_limit n) false)

unfoldable pub describe_size : PackageSizeEstimate → String
describe_size e =
    on_some e.bytes_estimate
      (λ n. str_append "install closure " (str_append (decimal (n / (1024 * 1024))) "MB"))
      (on_some e.dependency_count
        (λ n. str_append "dependency closure " (str_append (decimal n) " packages")) "size unknown")

-- `_size_prefilter_failure`.
unfoldable pub size_prefilter_failure : SizeLimits → PackageSizeEstimate → List String
unfolding describe_size
size_prefilter_failure limits e =
    str_append "package_too_large: " (
      str_append (describe_size e) (
        str_append " exceeds the sandbox install limit (npm " (
          str_append (decimal (limits.npm_unpacked_size_limit_bytes / (1024 * 1024))) (
            str_append "MB / pypi " (str_append (decimal limits.pypi_dependency_limit) " deps)")))))
    ∷ []

module _ (urlparse : String → Option ParsedUrl) (limits : SizeLimits)
    (estimate : RegistryType → String → PackageSizeEstimate) where
  -- The size check of a local record that passed.
  unfoldable pub size_check : PrefilterResult → McpServerRecord → PrefilterResult
  unfolding known over_limit size_prefilter_failure
  size_check result r =
      on_some (local_package_from_install_cmd r.install_cmd)
        (λ found.
          let e = estimate found.0 found.1 in
          if known e && over_limit limits e
          then result_of (size_prefilter_failure limits e)
          else result)
        result

  unfoldable pub prefilter_server_with_size :
      Option (String → Option Bool) → McpServerRecord → Option PrefilterResult
  unfolding prefilter_server size_check
  prefilter_server_with_size dns_resolver r =
      Option.map
        (λ result.
          if not result.passed || not (is_local r.transport) then result else size_check result r)
        (prefilter_server urlparse dns_resolver r)
