-- ===== src/Tests/Install.antt =====
-- Install commands, parsed and written.
use discovery_application.Base.{
  ◌∷◌, ◌≡◌, refl, none, some, [], lower, strip, strip_left, strip_right, split, split_from,
  contains, shlex_from, shlex_split, shlex_step,
}
use discovery_application.Verification.Install.{
  RegistryType, LocalToolConfig, config_of_tokens, local_tool_config, package_of_tokens,
  local_package_from_install_cmd, registered_install_cmd,
}
use discovery_application.Verification.Install.Registered
use discovery_application.Verification.Install.Registered.{IsPackageName}

unfoldable pub install : Unit {0}
unfolding lower strip_left strip_right strip split_from split contains shlex_step shlex_from
    shlex_split config_of_tokens local_tool_config package_of_tokens local_package_from_install_cmd
    registered_install_cmd
install = tt

abbrev pub npm_package : LocalToolConfig
npm_package = record {
  registry_type = RegistryType.npm;
  identifier = "tool";
  runtime_hint = none;
  runtime_arguments = [];
}

parsed :
    (local_tool_config (some "npx -y tool") ≡ some npm_package)
    × (local_tool_config (some "npx -y") ≡ none)
    × (local_tool_config (some "npx 'tool") ≡ none)
    × (local_package_from_install_cmd (some "pipx run tool --fast")
        ≡ some (RegistryType.pypi, "tool"))
unfolding install
parsed = (refl, refl, refl, refl)

tool-IsPackageName : IsPackageName "tool"
unfolding install
tool-IsPackageName = (refl, (refl, (refl, (refl, (refl, tt)))), refl, (λ e. cc e), (λ e. cc e))

registered-npm_example :
    (local_package_from_install_cmd (some (registered_install_cmd "npm" "tool" ""))
      ≡ some (RegistryType.npm, "tool"))
    × (local_tool_config (some (registered_install_cmd "npm" "tool" "")) ≡ some npm_package)
unfolding install
registered-npm_example = Registered.registered-npm "tool" "" tool-IsPackageName refl

registered-pypi_example :
    (local_package_from_install_cmd (some (registered_install_cmd "pypi" "tool" ""))
      ≡ some (RegistryType.pypi, "tool"))
    × (local_tool_config (some (registered_install_cmd "pypi" "tool" ""))
        ≡ some (record {
          registry_type = RegistryType.pip;
          identifier = "run";
          runtime_hint = some "pipx";
          runtime_arguments = "tool" ∷ [];
        }))
unfolding install
registered-pypi_example = Registered.registered-pypi "tool" "" tool-IsPackageName refl
