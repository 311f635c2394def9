-- ===== src/Sandbox/Readme/Dialled.antt =====
-- What a classified item lets the backend dial.
use discovery_application.Base.{
  ◌≡◌, refl, subst, String, Bool, true, false, not, ◌&&◌, ◌||◌, Option, none, some, List, [], ◌∷◌,
  All, All-append, keep, keep_sound, All-In, In-All, on_some, on_some_ind, if_ind, is_nil, is_empty,
  contains, lower, is_some, Bool-cases, inl, inr,
}
use discovery_application.Catalog.Identity.{text_or}
use discovery_application.Sandbox.Classifier.{
  RemoteCandidate, RemoteEntry, Package, Mode, ClassificationResult, ConfigFiles,
  is_remote_transport, is_local_host, is_dialable, candidates_of, is_streamable,
  build_remote_candidates, package_candidates, local_packages, github_source_hint,
}
use discovery_application.Sandbox.Readme.{
  ReadmeUrl, names_endpoint, is_usable_entry, first_endpoint, local_package_from_readme, by_remotes,
  by_packages, by_readme, by_repository, classify_tool,
}

module _ (hostname : String → Option (Option String)) where
  -- A transport over HTTP to a host that is known and not local.
  pub record IsRemote (c : RemoteCandidate) : Type 0 where
    pub transport : is_remote_transport (some c.type) ≡ true
    pub host : is_local_host hostname c.url ≡ false

  -- What each mode may offer, and whether it is testable.
  pub IsSafe : Mode → Bool → Type 0
  IsSafe (Mode.remote cs) testable = (is_nil cs ≡ false) × All IsRemote cs
  IsSafe (Mode.remote_via_package cs) testable = (is_nil cs ≡ false) × All IsRemote cs
  IsSafe (Mode.local_stdio ps) testable = testable ≡ false
  IsSafe (Mode.local_source hint) testable = Unit {0}
  IsSafe Mode.not_testable testable = testable ≡ false

  and-cases : (a b : Bool) → (a && not b) ≡ true → (a ≡ true) × (b ≡ false)
  and-cases true false h = (refl, refl)
  and-cases true true h = cc
  and-cases false b h = cc

  not-first : (a b : Bool) → (not a && b) ≡ true → a ≡ false
  not-first true b h = cc
  not-first false b h = refl

  transport_text :
      (type : Option String)
      → is_remote_transport type ≡ true
      → is_remote_transport (some (text_or type "")) ≡ true
  transport_text none h = cc h
  transport_text (some t) h = elim (Bool-cases (is_empty t)) [
    | inl blank ↦ cc (rw blank at h)
    | inr given ↦ rw (given, given) (rw given at h)
  ]

  dialable-IsRemote :
      (r : RemoteEntry) (header : Option String)
      → is_dialable hostname r ≡ true
      → IsRemote (record { type = text_or r.type ""; url = text_or r.url ""; auth_header = header })
  dialable-IsRemote r header h =
      let (transport, host) =
        and-cases (is_remote_transport r.type) (is_local_host hostname (text_or r.url "")) h in
      record { transport = transport_text r.type transport; host = host }

  candidates_of-All : (rs : List RemoteEntry) → All IsRemote (candidates_of hostname rs)
  unfolding candidates_of
  candidates_of-All [] = tt
  candidates_of-All (r ∷ rs) =
      if_ind (All IsRemote) (is_dialable hostname r)
        (λ e. (dialable-IsRemote r _ e, candidates_of-All rs)) (λ _. candidates_of-All rs)

  keep-IsRemote :
      (p : RemoteCandidate → Bool) (cs : List RemoteCandidate)
      → All IsRemote cs
      → All IsRemote (keep p cs)
  keep-IsRemote p cs h =
      All-In IsRemote (keep p cs) (λ c i. In-All IsRemote cs h (keep_sound p cs c i).1)

  build_remote_candidates-All :
      (rs : List RemoteEntry) → All IsRemote (build_remote_candidates hostname rs)
  unfolding build_remote_candidates
  build_remote_candidates-All rs =
      let found = candidates_of-All rs in
      All-append IsRemote _ _ (keep-IsRemote (is_streamable hostname) _ found)
        (keep-IsRemote (λ c. not (is_streamable hostname c)) _ found)

  package_candidates-All : (ps : List Package) → All IsRemote (package_candidates hostname ps)
  unfolding package_candidates
  package_candidates-All [] = tt
  package_candidates-All (p ∷ ps) =
      if_ind (All IsRemote) (is_dialable hostname p.transport)
        (λ e. (dialable-IsRemote p.transport _ e, package_candidates-All ps))
        (λ _. package_candidates-All ps)

  -- What a part of the classification gives, if anything.
  abbrev Ensures : Option ClassificationResult → Type 0
  Ensures none = Unit {0}
  Ensures (some r) = IsSafe r.mode r.testable

  module _ (urls : String → List ReadmeUrl) (npx_package uvx_package : String → Option String) where
    by_remotes-Ensures :
        (config : ConfigFiles) → Ensures (by_remotes hostname urls npx_package uvx_package config)
    unfolding by_remotes IsSafe
    by_remotes-Ensures config =
        if_ind Ensures
          (is_nil (build_remote_candidates hostname (on_some config.remotes (λ r. r) []))) (λ _. tt)
          (λ e. (e, build_remote_candidates-All _))

    by_packages-Ensures :
        (config : ConfigFiles) → Ensures (by_packages hostname urls npx_package uvx_package config)
    unfolding by_packages IsSafe
    by_packages-Ensures config =
        let packages = on_some config.packages (λ p. p) [] in
        if_ind Ensures (is_nil (package_candidates hostname packages))
          (λ _. if_ind Ensures (is_nil (local_packages hostname packages)) (λ _. tt) (λ _. refl))
          (λ e. (e, package_candidates-All packages))

    abbrev FindsRemote : Option RemoteCandidate → Type 0
    FindsRemote none = Unit {0}
    FindsRemote (some c) = IsRemote c

    first_endpoint-FindsRemote :
        (us : List ReadmeUrl)
        → FindsRemote (first_endpoint hostname urls npx_package uvx_package us)
    unfolding first_endpoint
    first_endpoint-FindsRemote [] = tt
    first_endpoint-FindsRemote (u ∷ us) =
        if_ind FindsRemote (not (is_local_host hostname u.url) && names_endpoint u)
          (λ e. record {
            transport =
                if_ind (λ (t : String). is_remote_transport (some t) ≡ true)
                  (contains u.path "sse" || contains (lower u.context) "sse") (λ _. refl)
                  (λ _. refl);
            host = not-first (is_local_host hostname u.url) (names_endpoint u) e;
          })
          (λ _. first_endpoint-FindsRemote us)

    by_readme-Ensures :
        (config : ConfigFiles) → Ensures (by_readme hostname urls npx_package uvx_package config)
    unfolding by_readme IsSafe
    by_readme-Ensures config =
        let readme = text_or config.readme "" in
        let found = first_endpoint hostname urls npx_package uvx_package (urls readme) in
        let package_found =
          local_package_from_readme hostname urls npx_package uvx_package readme in
        if_ind Ensures (is_some config.github && is_usable_entry config.readme)
          (λ _.
            on_some_ind Ensures found
              (λ c e. (refl, (subst FindsRemote e (first_endpoint-FindsRemote (urls readme)), tt)))
              (λ _. on_some_ind Ensures package_found (λ p _. refl) (λ _. tt)))
          (λ _. tt)

    by_repository-Ensures :
        (config : ConfigFiles)
        → Ensures (by_repository hostname urls npx_package uvx_package config)
    unfolding by_repository IsSafe
    by_repository-Ensures config =
        on_some_ind Ensures config.github
          (λ entry _. on_some_ind Ensures (github_source_hint entry) (λ hint _. tt) (λ _. tt))
          (λ _. tt)

    -- Every remote endpoint that a classification offers uses a transport over HTTP and a host that is
    -- known and not local, and a remote mode offers at least one; what has to run on the user's own
    -- machine, and what nothing is known of, is not testable.
    pub classify_tool-IsSafe :
        (config : ConfigFiles)
        → IsSafe
            (classify_tool hostname urls npx_package uvx_package config).mode
            (classify_tool hostname urls npx_package uvx_package config).testable
    unfolding classify_tool IsSafe
    classify_tool-IsSafe config =
        let P = λ (r : ClassificationResult). IsSafe r.mode r.testable in
        on_some_ind P (by_remotes hostname urls npx_package uvx_package config)
          (λ r e. subst Ensures e (by_remotes-Ensures config))
          (λ _.
            on_some_ind P (by_packages hostname urls npx_package uvx_package config)
              (λ r e. subst Ensures e (by_packages-Ensures config))
              (λ _.
                on_some_ind P (by_readme hostname urls npx_package uvx_package config)
                  (λ r e. subst Ensures e (by_readme-Ensures config))
                  (λ _.
                    on_some_ind P (by_repository hostname urls npx_package uvx_package config)
                      (λ r e. subst Ensures e (by_repository-Ensures config)) (λ _. refl))))
