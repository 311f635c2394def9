-- ===== src/Verification/Install.antt =====
-- Install commands: `_local_tool_config` of platform/backend/app/verification/verifiers.py with
-- LocalToolConfig of platform/backend/app/sandbox/container_manager.py, the parsing of
-- local_package_from_install_cmd of platform/backend/app/verification/prefilter.py, and the
-- command that ingestion.py beside it writes for a package of the registry.
pub mod Registered
use Prim.Native.String.{◌++◌ as str_append}
use text.Mathlib.Text.{starts_with}
use discovery_application.Base.{
  String, Bool, true, false, not, ◌&&◌, ◌||◌, Option, none, some, List, [], ◌∷◌, any, keep, on_some,
  str_eq, if◌then◌else◌, lower, contains, strip, is_empty, split, shlex_split,
}

pub data RegistryType : Type 0 where
  npm pip pypi : RegistryType

pub record LocalToolConfig : Type 0 where
  pub registry_type : RegistryType
  pub identifier : String
  pub runtime_hint : Option String
  pub runtime_arguments : List String

abbrev text_of : Option String → String
text_of none = ""
text_of (some s) = s

abbrev is_one_of : List String → String → Bool
is_one_of names s = any (λ n. str_eq s n) names

-- The first of the tokens that are left is the package, the others are its arguments.
abbrev package_config : RegistryType → Option String → List String → Option LocalToolConfig
package_config registry hint [] = none
package_config registry hint (identifier ∷ rest) = some (record {
  registry_type = registry;
  identifier = identifier;
  runtime_hint = hint;
  runtime_arguments = rest;
})

-- The part of `_local_tool_config` after `shlex.split`.
unfoldable pub config_of_tokens : String → List String → Option LocalToolConfig
config_of_tokens cmd [] = none
config_of_tokens cmd (token ∷ tokens) =
    let head = lower token in
    if str_eq head "npx"
    then package_config RegistryType.npm none
        (keep (λ t. not (is_one_of ("-y" ∷ "--yes" ∷ "--quiet" ∷ []) t)) tokens)
    else if str_eq head "uvx" || str_eq head "pipx"
    then package_config RegistryType.pip (some head) (keep (λ t. not (starts_with t "--")) tokens)
    else if str_eq head "python" || str_eq head "python3"
    then some (record {
      registry_type = RegistryType.pip;
      identifier = cmd;
      runtime_hint = none;
      runtime_arguments = tokens;
    })
    else if str_eq head "node"
    then some (record {
      registry_type = RegistryType.npm;
      identifier = cmd;
      runtime_hint = none;
      runtime_arguments = tokens;
    })
    else some (record {
      registry_type = RegistryType.npm;
      identifier = cmd;
      runtime_hint = none;
      runtime_arguments = [];
    })

unfoldable pub local_tool_config : Option String → Option LocalToolConfig
unfolding config_of_tokens
local_tool_config install_cmd =
    let cmd = strip (text_of install_cmd) in
    if is_empty cmd
    then none
    else on_some (shlex_split cmd) (λ tokens. config_of_tokens cmd tokens) none

abbrev first_package : RegistryType → List String → Option (RegistryType × String)
first_package registry [] = none
first_package registry (identifier ∷ rest) = some (registry, identifier)

unfoldable pub package_of_tokens : List String → Option (RegistryType × String)
package_of_tokens [] = none
package_of_tokens (token ∷ tokens) =
    let head = lower token in
    let rest =
      keep (λ t. not (is_one_of ("-y" ∷ "--yes" ∷ "run" ∷ []) t) && not (starts_with t "--"))
        tokens in
    if str_eq head "npx"
    then first_package RegistryType.npm rest
    else if str_eq head "uvx" || str_eq head "pipx"
    then first_package RegistryType.pypi rest
    else none

unfoldable pub local_package_from_install_cmd : Option String → Option (RegistryType × String)
unfolding package_of_tokens
local_package_from_install_cmd install_cmd =
    let cmd = strip (text_of install_cmd) in
    if is_empty cmd then none else package_of_tokens (split cmd)

-- The install command of `from_mcp_registry_candidate` for a package.
unfoldable pub registered_install_cmd : String → String → String → String
registered_install_cmd registry_type identifier runtime_hint =
    if str_eq registry_type "pypi" || contains runtime_hint "uvx" || contains registry_type "pip"
    then if contains runtime_hint "uvx"
      then str_append "uvx " identifier
      else str_append "pipx run " identifier
    else str_append "npx -y " identifier
