-- ===== src/Verification/Install/Registered.antt =====
-- How the command written for a package of the registry is read again.
use Prim.Native.Char.{Char, code}
use Prim.Native.String.{[] as nil, ◌∷◌ as ◌::◌, ◌++◌ as ◌+++◌}
use Prim.Native.String.append
use text.Mathlib.Text.{starts_with}
use text.Mathlib.TextLemmas.{append-nil, append_assoc}
use discovery_application.Base.{
  ◌≡◌, ◌≢◌, refl, sym, ◌∙◌, ap, arith, String, Bool, true, false, not, ◌&&◌, none, some, [], ◌∷◌,
  ◌==◌, str_eq, is_space, is_blank, is_empty, strip, strip_right, split, split_from, lower,
  shlex_from, shlex_split, bare, Bool-cases, inl, inr, str_eq_iff, prepend, append-prepend,
  contains,
}
use discovery_application.Verification.Install.{
  RegistryType, local_tool_config, local_package_from_install_cmd, registered_install_cmd,
}

-- Neither white space, nor a quote, nor a backslash.
abbrev pub is_plain : Char → Bool
is_plain c = not (is_space c) && not (code c == 39) && not (code c == 34) && not (code c == 92)

abbrev pub IsPlain : String → Type 0
IsPlain nil = Unit {0}
IsPlain (c :: s) = (is_plain c ≡ true) × IsPlain s

plain-space : (c : Char) → is_plain c ≡ true → is_space c ≡ false
plain-space c h = ground arith

plain-blank : (c : Char) → is_plain c ≡ true → is_blank c ≡ false
plain-blank c h = ground arith

plain-codes :
    (c : Char)
    → is_plain c ≡ true
    → ((code c == 39) ≡ false) × ((code c == 34) ≡ false) × ((code c == 92) ≡ false)
plain-codes c h = ground arith

grow : (w : String) (c : Char) (s : String) → (w +++ (c :: nil)) +++ s ≡ w +++ (c :: s)
grow w c s =
    append_assoc w (c :: nil) s
    ∙ ap (λ t. w +++ t) (append.cons c nil s ∙ ap (λ t. c :: t) (append.nil s))

is_empty-append : (w : String) (c : Char) → is_empty (w +++ (c :: nil)) ≡ false
is_empty-append nil c = rw (append.nil (c :: nil))
is_empty-append (d :: w) c = rw (append.cons d w (c :: nil))

strip_right-plain : (s : String) → IsPlain s → strip_right s ≡ s
unfolding strip_right
strip_right-plain nil h = refl
strip_right-plain (c :: s) (p, ps) = rw (strip_right-plain s ps, plain-space c p) (ground arith)

split_from-plain : (w s : String) → IsPlain s → is_empty w ≡ false → split_from w s ≡ (w +++ s) ∷ []
unfolding split_from
split_from-plain w nil h e = rw (e, append-nil w)
split_from-plain w (c :: s) (p, ps) e =
    rw (plain-space c p) (
      split_from-plain (w +++ (c :: nil)) s ps (is_empty-append w c)
      ∙ ap (λ t. t ∷ []) (grow w c s))

shlex_from-plain : (w s : String) → IsPlain s → shlex_from bare (some w) s ≡ some ((w +++ s) ∷ [])
unfolding shlex_from
shlex_from-plain w nil h = rw (append-nil w)
shlex_from-plain w (c :: s) (p, ps) =
    let (q1, q2, q3) = plain-codes c p in
    rw (plain-blank c p, q1, q2, q3)
      (rw (shlex_from-plain (w +++ (c :: nil)) s ps) (ap (λ t. some (t ∷ [])) (grow w c s)))

-- The tokens of a command that ends in a plain word, by both splitters.
module _ (c : Char) (s : String) (p : is_plain c ≡ true) (ps : IsPlain s) where
  word-plain : (c :: nil) +++ s ≡ c :: s
  word-plain = append.cons c nil s ∙ ap (λ t. c :: t) (append.nil s)

  shlex_from-word : shlex_from bare none (c :: s) ≡ some ((c :: s) ∷ [])
  unfolding shlex_from
  shlex_from-word =
      let (q1, q2, q3) = plain-codes c p in
      rw (plain-blank c p, q1, q2, q3)
        (rw (shlex_from-plain (c :: nil) s ps) (ap (λ t. some (t ∷ [])) word-plain))

  split_from-word : split_from "" (c :: s) ≡ (c :: s) ∷ []
  unfolding split_from
  split_from-word =
      rw (plain-space c p, append.nil (c :: nil))
        (split_from-plain (c :: nil) s ps refl ∙ ap (λ t. t ∷ []) word-plain)

  strip-pipx : strip (prepend "pipx run " (c :: s)) ≡ prepend "pipx run " (c :: s)
  unfolding strip
  strip-pipx = rw (strip_right-plain (c :: s) (p, ps))

  strip-npx : strip (prepend "npx -y " (c :: s)) ≡ prepend "npx -y " (c :: s)
  unfolding strip
  strip-npx = rw (strip_right-plain (c :: s) (p, ps))

  shlex-pipx : shlex_split (prepend "pipx run " (c :: s)) ≡ some ("pipx" ∷ "run" ∷ (c :: s) ∷ [])
  unfolding shlex_split
  shlex-pipx = rw shlex_from-word refl

  shlex-npx : shlex_split (prepend "npx -y " (c :: s)) ≡ some ("npx" ∷ "-y" ∷ (c :: s) ∷ [])
  unfolding shlex_split
  shlex-npx = rw shlex_from-word refl

  split-pipx : split (prepend "pipx run " (c :: s)) ≡ "pipx" ∷ "run" ∷ (c :: s) ∷ []
  unfolding split
  split-pipx = rw split_from-word refl

  split-npx : split (prepend "npx -y " (c :: s)) ≡ "npx" ∷ "-y" ∷ (c :: s) ∷ []
  unfolding split
  split-npx = rw split_from-word refl

-- The name of a package that neither parser takes for an option or a subcommand.
abbrev pub IsPackageName : String → Type 0
IsPackageName id =
    (is_empty id ≡ false) × IsPlain id × (starts_with id "--" ≡ false) × (id ≢ "-y") × (id ≢ "run")

not_text : (s t : String) → s ≢ t → str_eq s t ≡ false
not_text s t h = elim (Bool-cases (str_eq s t)) [
  | inl same ↦ absurd (h ((str_eq_iff s t).0 same))
  | inr other ↦ other
]

not_option :
    (s t : String) → starts_with s "--" ≡ false → starts_with t "--" ≡ true → str_eq s t ≡ false
not_option s t h k = not_text s t (λ e. cc (sym k ∙ ap (λ u. starts_with u "--") (sym e) ∙ h))

-- For a PyPI package whose name is not empty, has no white space, quote or backslash, does not
-- begin with two dashes and is neither -y nor run, and a runtime hint without uvx, the install
-- command written for it is read by the prefilter as that package, and by the verifier as a
-- package named run with that package as its argument.
pub registered-pypi :
    (id runtime_hint : String)
    → IsPackageName id
    → contains runtime_hint "uvx" ≡ false
    → (local_package_from_install_cmd (some (registered_install_cmd "pypi" id runtime_hint))
        ≡ some (RegistryType.pypi, id))
      × (local_tool_config (some (registered_install_cmd "pypi" id runtime_hint))
          ≡ some (record {
            registry_type = RegistryType.pip;
            identifier = "run";
            runtime_hint = some "pipx";
            runtime_arguments = id ∷ [];
          }))
unfolding local_package_from_install_cmd local_tool_config registered_install_cmd lower
registered-pypi nil runtime_hint name h = cc (name.0)
registered-pypi (c :: s) runtime_hint (_, (p, ps), no_option, not_y, not_run) h =
    rw
      (
        h,
        append-prepend "pipx run " (c :: s),
        strip-pipx c s p ps,
        shlex-pipx c s p ps,
        split-pipx c s p ps,
        not_text _ _ not_y,
        not_text _ _ not_run,
        not_option (c :: s) "--yes" no_option refl,
        no_option,
      )
      (refl, refl)

-- For an npm package whose name is not empty, has no white space, quote or backslash, does not
-- begin with two dashes and is neither -y nor run, and a runtime hint without uvx, the install
-- command written for it is read back as that package by the prefilter and by the verifier.
pub registered-npm :
    (id runtime_hint : String)
    → IsPackageName id
    → contains runtime_hint "uvx" ≡ false
    → (local_package_from_install_cmd (some (registered_install_cmd "npm" id runtime_hint))
        ≡ some (RegistryType.npm, id))
      × (local_tool_config (some (registered_install_cmd "npm" id runtime_hint))
          ≡ some (record {
            registry_type = RegistryType.npm;
            identifier = id;
            runtime_hint = none;
            runtime_arguments = [];
          }))
unfolding local_package_from_install_cmd local_tool_config registered_install_cmd contains lower
registered-npm nil runtime_hint name h = cc (name.0)
registered-npm (c :: s) runtime_hint (_, (p, ps), no_option, not_y, not_run) h =
    rw
      (
        h,
        append-prepend "npx -y " (c :: s),
        strip-npx c s p ps,
        shlex-npx c s p ps,
        split-npx c s p ps,
        not_text _ _ not_y,
        not_text _ _ not_run,
        not_option (c :: s) "--yes" no_option refl,
        not_option (c :: s) "--quiet" no_option refl,
        no_option,
      )
      (refl, refl)
