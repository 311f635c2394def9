-- ===== src/Sandbox/Classifier.antt =====
-- How an item is tested: `classify_tool` of platform/backend/app/sandbox/classifier.py. Of the
-- configuration files of an item the first of each kind is read; `hostname` is urlparse's, nothing
-- where it raises. What regular expressions find in a README is a parameter: each URL with the text
-- around it, and the first package of an `npx` or a `uvx` command.
use Prim.Native.String.{◌++◌ as str_append}
use discovery_application.Base.{
  String, Bool, true, false, not, ◌&&◌, ◌||◌, Option, none, some, List, [], ◌∷◌, ◌++◌, any, find?,
  keep, on_some, str_eq, is_empty, if◌then◌else◌, lower, strip, contains,
}
use discovery_application.Catalog.Identity.{text_or}
use package.text.Mathlib.Text.{starts_with}

pub record RemoteCandidate : Type 0 where
  pub type : String
  pub url : String
  pub auth_header : Option String

pub record LocalPackageHint : Type 0 where
  pub registry_type : Option String
  pub identifier : Option String
  pub runtime_hint : Option String
  pub install_command : Option String

pub record GithubSourceHint : Type 0 where
  pub repository : String
  pub clone_url : String

pub data Mode : Type 0 where
  remote : List RemoteCandidate → Mode
  remote_via_package : List RemoteCandidate → Mode
  local_stdio : List LocalPackageHint → Mode
  local_source : GithubSourceHint → Mode
  not_testable : Mode

pub record ClassificationResult : Type 0 where
  pub testable : Bool
  pub mode : Mode

-- A header with its name, where it is required.
pub record Header : Type 0 where
  pub name : Option String
  pub is_required : Bool

pub record RemoteEntry : Type 0 where
  pub url : Option String
  pub type : Option String
  pub headers : List Header

-- A package with the type, the URL and the headers of its transport.
pub record Package : Type 0 where
  pub transport : RemoteEntry
  pub headers : List Header
  pub registry_type : Option String
  pub identifier : Option String
  pub runtime_hint : Option String

-- The first entry of each kind, none where there is none.
pub record ConfigFiles : Type 0 where
  pub remotes : Option (List RemoteEntry)
  pub packages : Option (List Package)
  pub github : Option (Option String × Option String)
  pub readme : Option String

abbrev pub local_hosts : List String
local_hosts = "localhost" ∷ "127.0.0.1" ∷ "0.0.0.0" ∷ "::1" ∷ []

abbrev pub is_remote_transport : Option String → Bool
is_remote_transport type =
    str_eq (text_or type "") "streamable-http" || str_eq (text_or type "") "sse"

-- `_required_auth_header`.
unfoldable pub required_auth_header : List Header → Option String
required_auth_header headers =
    on_some (find? (λ h. h.is_required && not (is_empty (text_or h.name ""))) headers) (λ h. h.name)
      none

-- The name of the first required header, which may be missing.
unfoldable pub first_required : List Header → Option String
first_required headers = on_some (find? (λ h. h.is_required) headers) (λ h. h.name) none

unfoldable pub build_install_command : Option String → Option String → Option String → Option String
build_install_command runtime_hint registry_type identifier =
    let name = text_or identifier "" in
    let hint = text_or runtime_hint "" in
    let runtime = lower hint in
    let registry = text_or registry_type "" in
    if is_empty name
    then none
    else if contains runtime "npx" || str_eq registry "npm"
    then some (str_append "npx -y " name)
    else if contains runtime "uvx" || str_eq registry "pypi"
    then some (str_append "uvx " name)
    else if contains runtime "pip"
    then some (str_append "pip install " name)
    else if contains runtime "docker" || str_eq registry "oci"
    then some (str_append "docker run -i --rm " name)
    else if not (is_empty hint)
    then some (strip (str_append hint (str_append " " name)))
    else some name

unfoldable pub summarize_package : Package → LocalPackageHint
unfolding build_install_command
summarize_package p = record {
  registry_type = p.registry_type;
  identifier = p.identifier;
  runtime_hint = p.runtime_hint;
  install_command = build_install_command p.runtime_hint p.registry_type p.identifier;
}

unfoldable pub is_resolvable_identifier : String → Bool
is_resolvable_identifier identifier =
    let ident = strip identifier in
    if is_empty identifier
    then false
    else if starts_with ident "./" || starts_with ident "../" || starts_with ident "/"
    then false
    else if starts_with ident "@"
    then contains ident "/"
    else true

unfoldable pub github_source_hint : Option String × Option String → Option GithubSourceHint
github_source_hint entry =
    let repository = text_or entry.0 "" in
    let clone_url = text_or entry.1 "" in
    if is_empty repository || is_empty clone_url
    then none
    else some (record { repository = repository; clone_url = clone_url })

module _ (hostname : String → Option (Option String)) where
  -- Also true of a URL that is missing or cannot be read.
  unfoldable pub is_local_host : String → Bool
  is_local_host url =
      if is_empty url
      then true
      else on_some (hostname url)
          (λ host.
            let name = text_or host "" in
            is_empty name || any (λ known. str_eq known (lower name)) local_hosts)
          true

  abbrev pub is_dialable : RemoteEntry → Bool
  is_dialable r = is_remote_transport r.type && not (is_local_host (text_or r.url ""))

  unfoldable pub candidates_of : List RemoteEntry → List RemoteCandidate
  unfolding first_required
  candidates_of [] = []
  candidates_of (r ∷ rs) =
      let rest = candidates_of rs in
      if is_dialable r
      then record {
        type = text_or r.type "";
        url = text_or r.url "";
        auth_header = first_required r.headers;
      }
        ∷ rest
      else rest

  abbrev pub is_streamable : RemoteCandidate → Bool
  is_streamable c = str_eq c.type "streamable-http"

  -- A stable sort by two classes: those of the modern transport, and then the others.
  unfoldable pub build_remote_candidates : List RemoteEntry → List RemoteCandidate
  unfolding candidates_of
  build_remote_candidates remotes =
      let found = candidates_of remotes in
      keep is_streamable found ++ keep (λ c. not (is_streamable c)) found

  unfoldable pub package_candidates : List Package → List RemoteCandidate
  unfolding required_auth_header
  package_candidates [] = []
  package_candidates (p ∷ ps) =
      let rest = package_candidates ps in
      if is_dialable p.transport
      then record {
        type = text_or p.transport.type "";
        url = text_or p.transport.url "";
        auth_header =
            on_some (required_auth_header p.headers) some
              (required_auth_header p.transport.headers);
      }
        ∷ rest
      else rest

  unfoldable pub local_packages : List Package → List LocalPackageHint
  unfolding summarize_package
  local_packages [] = []
  local_packages (p ∷ ps) =
      let rest = local_packages ps in
      if is_dialable p.transport then rest else summarize_package p ∷ rest
