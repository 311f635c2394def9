-- ===== src/Search/Discovery.antt =====
-- Live discovery: gather_source_outcomes of platform/backend/app/search/concurrency.py,
-- MCPDiscoveryAdapter.discover of mcp_adapter.py and DiscoveryOrchestrator.discover of
-- orchestrator.py beside it. What a source answers is an argument: candidates, or the text of the
-- exception that it raised. The sources of one gathering run at the same time and share nothing, so
-- their answers are collected in order.
pub mod Sources
use Prim.Native.String.{◌++◌ as str_append}
use discovery_application.Base.{
  ℕ, ◌-◌, max, String, Bool, true, false, not, ◌||◌, Option, none, some, List, [], ◌∷◌, ◌++◌,
  length, is_nil, leb, str_eq, strip, is_empty, if◌then◌else◌, on_some,
}

pub data Answer (C : Type 0) : Type 0 where
  answered : List C → Answer C
  raised : String → Answer C

pub record SourceOutcome (C : Type 0) : Type 0 where
  pub source : String
  pub succeeded : Bool
  pub candidates : List C
  pub error : Option String

pub record SearchOrchestratorResult (C : Type 0) : Type 0 where
  pub candidates : List C
  pub sources_attempted : List String
  pub sources_succeeded : List String
  pub sources_failed : List String
  pub source_errors : List (String × String)

-- The errors that `discover` raises.
pub data DiscoveryError : Type 0 where
  empty_query bad_item_type : DiscoveryError

pub data Discovery (C : Type 0) : Type 0 where
  refused : DiscoveryError → Discovery C
  discovered : SearchOrchestratorResult C → Discovery C

module _ {C : Type 0} where
  unfoldable pub outcome_of : String → Answer C → SourceOutcome C
  outcome_of name (raised error) = record {
    source = name;
    succeeded = false;
    candidates = [];
    error = some error;
  }
  outcome_of name (answered candidates) = record {
    source = name;
    succeeded = true;
    candidates = candidates;
    error = none;
  }

  unfoldable pub gather_source_outcomes : List (String × Answer C) → List (SourceOutcome C)
  unfolding outcome_of
  gather_source_outcomes [] = []
  gather_source_outcomes ((name, answer) ∷ tasks) =
      outcome_of name answer ∷ gather_source_outcomes tasks

  unfoldable pub official_candidates : List (SourceOutcome C) → List C
  official_candidates [] = []
  official_candidates (o ∷ os) =
      (if o.succeeded then o.candidates else []) ++ official_candidates os

  -- The tasks of the sources that are configured.
  abbrev pub task : String → Option (Answer C) → List (String × Answer C)
  task name none = []
  task name (some answer) = (name, answer) ∷ []

  unfoldable pub github_step : Option (ℕ → Answer C) → ℕ → List (SourceOutcome C)
  unfolding gather_source_outcomes
  github_step none fetch = []
  github_step (some search) fetch = gather_source_outcomes (("github", search fetch) ∷ [])

  -- `MCPDiscoveryAdapter.discover`.
  unfoldable pub discover_mcp :
      Option (Answer C) → Option (Answer C) → Option (ℕ → Answer C) → ℕ → List (SourceOutcome C)
  unfolding gather_source_outcomes official_candidates github_step
  discover_mcp registry service github min_results =
      let tasks = task "mcp_registry" registry ++ task "service" service in
      let outcomes = gather_source_outcomes tasks in
      let official = official_candidates outcomes in
      if not (is_nil tasks)
      then if leb min_results (length official)
        then outcomes
        else outcomes ++ github_step github (max (min_results - length official) 1)
      else outcomes ++ github_step github (max (min_results - length official) 1)

  -- The loop of `DiscoveryOrchestrator.discover` over the outcomes.
  unfoldable pub collect : List (SourceOutcome C) → SearchOrchestratorResult C
  collect [] = record {
    candidates = [];
    sources_attempted = [];
    sources_succeeded = [];
    sources_failed = [];
    source_errors = [];
  }
  collect (o ∷ os) =
      let rest = collect os in
      let name = str_append "mcp:" o.source in
      if o.succeeded
      then record {
        candidates = o.candidates ++ rest.candidates;
        sources_attempted = name ∷ rest.sources_attempted;
        sources_succeeded = name ∷ rest.sources_succeeded;
        sources_failed = rest.sources_failed;
        source_errors = rest.source_errors;
      }
      else record {
        candidates = rest.candidates;
        sources_attempted = name ∷ rest.sources_attempted;
        sources_succeeded = rest.sources_succeeded;
        sources_failed = name ∷ rest.sources_failed;
        source_errors =
            on_some o.error (λ e. if str_eq e "" then [] else (name, e) ∷ []) []
            ++ rest.source_errors;
      }

  -- `DiscoveryOrchestrator.discover`, over what the adapter answers.
  unfoldable pub discover : String → String → List (SourceOutcome C) → Discovery C
  unfolding collect strip
  discover query item_type answer =
      let is_tool = str_eq item_type "all" || str_eq item_type "tool" in
      if is_empty (strip query)
      then refused empty_query
      else if not (is_tool || str_eq item_type "agent")
      then refused bad_item_type
      else discovered (collect (if is_tool then answer else []))
