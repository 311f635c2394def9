-- ===== src/Sandbox/Readme.antt =====
-- What a README documents, and the classification of an item: the second half of
-- platform/backend/app/sandbox/classifier.py.
pub mod Dialled
use discovery_application.Base.{
  String, Bool, true, false, not, ◌&&◌, ◌||◌, Option, none, some, List, [], ◌∷◌, any, is_nil,
  is_some, on_some, str_eq, is_empty, if◌then◌else◌, lower, strip, contains, ends_with,
}
use discovery_application.Catalog.Identity.{text_or}
use discovery_application.Sandbox.Classifier.{
  RemoteCandidate, LocalPackageHint, Mode, ClassificationResult, ConfigFiles, build_install_command,
  is_resolvable_identifier, github_source_hint, is_local_host, build_remote_candidates,
  package_candidates, local_packages,
}

-- A URL of a README without the punctuation at its end, its lower-case host and path, and the text
-- around it.
pub record ReadmeUrl : Type 0 where
  pub url : String
  pub host : String
  pub path : String
  pub context : String

abbrev pub non_endpoint_hosts : List String
non_endpoint_hosts =
    "github.com" ∷ "raw.githubusercontent.com" ∷ "npmjs.com" ∷ "www.npmjs.com" ∷ "pypi.org"
    ∷ "shields.io" ∷ "img.shields.io" ∷ "badge.fury.io" ∷ "codecov.io" ∷ "coveralls.io" ∷ []

abbrev pub non_endpoint_path_suffixes : List String
non_endpoint_path_suffixes = ".svg" ∷ ".png" ∷ ".jpg" ∷ ".jpeg" ∷ ".gif" ∷ ".md" ∷ []

abbrev pub endpoint_hints : List String
endpoint_hints =
    "endpoint" ∷ "connect" ∷ "remote" ∷ "streamable" ∷ "hosted" ∷ "mcp server url" ∷ "mcp url"
    ∷ "server url" ∷ "available at" ∷ []

unfoldable pub names_endpoint : ReadmeUrl → Bool
names_endpoint u =
    not (any (λ host. str_eq host u.host) non_endpoint_hosts)
    && not (any (λ suffix. ends_with u.path suffix) non_endpoint_path_suffixes)
    && (contains u.path "/mcp"
        || contains u.path "/sse"
        || any (λ hint. contains (lower u.context) hint) endpoint_hints)

abbrev pub is_usable_entry : Option String → Bool
is_usable_entry readme = not (is_empty (strip (text_or readme "")))

-- The hint of a command's package, which ends the search if it cannot be resolved.
unfoldable pub command_hint : String → String → String → Option LocalPackageHint
command_hint runtime registry identifier =
    if is_resolvable_identifier identifier
    then some (record {
      registry_type = some registry;
      identifier = some identifier;
      runtime_hint = some runtime;
      install_command = build_install_command (some runtime) (some registry) (some identifier);
    })
    else none

module _ (hostname : String → Option (Option String)) (urls : String → List ReadmeUrl)
    (npx_package uvx_package : String → Option String) where
  unfoldable pub first_endpoint : List ReadmeUrl → Option RemoteCandidate
  unfolding names_endpoint
  first_endpoint [] = none
  first_endpoint (u ∷ us) =
      let rest = first_endpoint us in
      if not (is_local_host hostname u.url) && names_endpoint u
      then some (record {
        type =
            if contains u.path "sse" || contains (lower u.context) "sse"
            then "sse"
            else "streamable-http";
        url = u.url;
        auth_header = none;
      })
      else rest

  unfoldable pub local_package_from_readme : String → Option LocalPackageHint
  unfolding command_hint
  local_package_from_readme readme =
      on_some (npx_package readme) (command_hint "npx" "npm")
        (on_some (uvx_package readme) (command_hint "uvx" "pypi") none)

  abbrev pub result : Bool → Mode → Option ClassificationResult
  result testable mode = some (record { testable = testable; mode = mode })

  unfoldable pub by_remotes : ConfigFiles → Option ClassificationResult
  by_remotes config =
      let candidates = build_remote_candidates hostname (on_some config.remotes (λ r. r) []) in
      if is_nil candidates then none else result true (Mode.remote candidates)

  unfoldable pub by_packages : ConfigFiles → Option ClassificationResult
  by_packages config =
      let packages = on_some config.packages (λ p. p) [] in
      let candidates = package_candidates hostname packages in
      let locals = local_packages hostname packages in
      if is_nil candidates
      then if is_nil locals then none else result false (Mode.local_stdio locals)
      else result true (Mode.remote_via_package candidates)

  unfoldable pub by_readme : ConfigFiles → Option ClassificationResult
  unfolding first_endpoint local_package_from_readme
  by_readme config =
      let readme = text_or config.readme "" in
      if is_some config.github && is_usable_entry config.readme
      then on_some (first_endpoint (urls readme)) (λ c. result true (Mode.remote (c ∷ [])))
          (on_some (local_package_from_readme readme)
            (λ p. result false (Mode.local_stdio (p ∷ []))) none)
      else none

  unfoldable pub by_repository : ConfigFiles → Option ClassificationResult
  by_repository config =
      on_some config.github
        (λ entry.
          on_some (github_source_hint entry)
            (λ hint. result (is_usable_entry config.readme) (Mode.local_source hint)) none)
        none

  unfoldable pub classify_tool : ConfigFiles → ClassificationResult
  unfolding by_remotes by_packages by_readme by_repository
  classify_tool config =
      on_some (by_remotes config) (λ r. r)
        (on_some (by_packages config) (λ r. r)
          (on_some (by_readme config) (λ r. r)
            (on_some (by_repository config) (λ r. r)
              (record { testable = false; mode = Mode.not_testable }))))
