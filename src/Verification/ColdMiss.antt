-- ===== src/Verification/ColdMiss.antt =====
-- The cold-miss cascade: `ColdMissQueryRepository` of
-- platform/backend/app/verification/repository.py and `run_cold_miss_cascade` of queue.py beside
-- it. The rows are a dict under their query key, which `query_key` makes of a term; the times of a
-- row are not read and left out. What a source finds is the list of records made of its
-- candidates, and is empty where the source is off or raised. Every `update` of the row is a
-- function of its own, since the process may stop between two of them.
pub mod Cascade
use mathlib.Core.Option
use discovery_application.Base.{
  ℕ, ◌+◌, String, Bool, true, false, not, ◌||◌, Option, none, some, List, [], ◌∷◌, Dict, lookup,
  put, values, on_some, ltb, if◌then◌else◌,
}
use discovery_application.Verification.Models.{McpServerRecord}
use discovery_application.Verification.Registry.{Engine, Rows}
use discovery_application.Verification.Prefilter.{PrefilterResult}
use discovery_application.Verification.Queue.{ingest_candidate}

pub data ColdMissStatus : Type 0 where
  queued checking_registry checking_github done : ColdMissStatus

abbrev pub is_done : ColdMissStatus → Bool
is_done ColdMissStatus.done = true
is_done _ = false

-- `status IN [:s1, :s2]` of `list_pending`.
abbrev pub is_listed : ColdMissStatus → Bool
is_listed ColdMissStatus.queued = true
is_listed ColdMissStatus.checking_registry = true
is_listed _ = false

pub record ColdMissQueryRecord : Type 0 where
  pub term : String
  pub status : ColdMissStatus
  pub registry_done : Bool
  pub github_done : Bool
  pub servers_found : ℕ

unfoldable pub list_pending :
    Engine ColdMissQueryRecord → ℕ → Dict ColdMissQueryRecord → List ColdMissQueryRecord
list_pending db limit queries = db.select (λ q. is_listed q.status) limit (values queries)

abbrev pub queued_row : String → ColdMissQueryRecord
queued_row term = record {
  term = term;
  status = ColdMissStatus.queued;
  registry_done = false;
  github_done = false;
  servers_found = 0;
}

-- The servers, and the queries.
pub record CascadeState : Type 0 where
  pub servers : Rows
  pub queries : Dict ColdMissQueryRecord

module _ (query_key : String → String) where
  -- `get` and `update`.
  unfoldable pub get_query : String → Dict ColdMissQueryRecord → Option ColdMissQueryRecord
  get_query term queries = lookup (query_key term) queries

  unfoldable pub update_query :
      String
      → (ColdMissQueryRecord → ColdMissQueryRecord)
      → Dict ColdMissQueryRecord
      → Dict ColdMissQueryRecord
  update_query term change queries =
      on_some (lookup (query_key term) queries) (λ q. put (query_key term) (change q) queries)
        queries

  -- `enqueue`: the record, whether it is newly queued, and the table.
  unfoldable pub enqueue :
      String → Dict ColdMissQueryRecord → ColdMissQueryRecord × Bool × Dict ColdMissQueryRecord
  unfolding get_query update_query
  enqueue term queries =
      on_some (get_query term queries)
        (λ existing. if not (is_done existing.status) then (existing, false, queries) else (
          queued_row term,
          true,
          update_query term
              (λ q. record q {
                status = ColdMissStatus.queued;
                registry_done = false;
                github_done = false;
              })
              queries,
        ))
        (queued_row term, true, put (query_key term) (queued_row term) queries)

  -- A write of the cascade to the row of its term.
  unfoldable pub write :
      String → (ColdMissQueryRecord → ColdMissQueryRecord) → CascadeState → CascadeState
  unfolding update_query
  write term change s = record s { queries = update_query term change s.queries }

  abbrev pub begin_registry : String → CascadeState → CascadeState
  begin_registry term s = write term (λ q. record q { status = ColdMissStatus.checking_registry }) s

  abbrev pub end_registry : String → ℕ → CascadeState → CascadeState
  end_registry term found s =
      write term (λ q. record q { registry_done = true; servers_found = found }) s

  abbrev pub end_at_registry : String → CascadeState → CascadeState
  end_at_registry term s = write term (λ q. record q { status = ColdMissStatus.done }) s

  abbrev pub begin_github : String → CascadeState → CascadeState
  begin_github term s = write term (λ q. record q { status = ColdMissStatus.checking_github }) s

  abbrev pub end_github : String → ℕ → CascadeState → CascadeState
  end_github term found s =
      write term
        (λ q. record q { github_done = true; servers_found = found; status = ColdMissStatus.done })
        s

  module _ (db : Engine McpServerRecord) (repo_identity : Option String → Option String)
      (with_size : McpServerRecord → Option PrefilterResult) where
    -- `for candidate in candidates: found += await _ingest_candidate(…)`; none where one raised,
    -- which ends the cascade.
    unfoldable pub ingest_each : List McpServerRecord → ℕ → CascadeState → Option ℕ × CascadeState
    ingest_each [] found s = (some found, s)
    ingest_each (r ∷ rs) found s =
        let (one, rows) = ingest_candidate db repo_identity with_size r s.servers in
        let s' = record s { servers = rows } in
        on_some one (λ n. ingest_each rs (found + n) s') (none, s')

    -- The part for the official registry, up to its last write.
    unfoldable pub registry_phase :
        String → List McpServerRecord → CascadeState → Option ℕ × CascadeState
    unfolding ingest_each write
    registry_phase term candidates s =
        let (found, s') = ingest_each candidates 0 (begin_registry term s) in
        on_some found (λ n. (some n, end_registry term n s')) (none, s')

    unfoldable pub github_phase :
        String → List McpServerRecord → ℕ → CascadeState → Option ℕ × CascadeState
    unfolding ingest_each write
    github_phase term candidates found s =
        let (found', s') = ingest_each candidates found (begin_github term s) in
        on_some found' (λ n. (some n, end_github term n s')) (none, s')

    abbrev pub github_part :
        Bool → String → List McpServerRecord → ℕ → CascadeState → Option ℕ × CascadeState
    github_part github_done term candidates found s =
        if not github_done then github_phase term candidates found s else (some found, s)

    -- What follows the part for the official registry, which found `n` servers.
    abbrev pub after_registry :
        Bool → String → List McpServerRecord → ℕ → CascadeState → Option ℕ × CascadeState
    after_registry github_done term github n s =
        if ltb 0 n
        then (some n, end_at_registry term s)
        else github_part github_done term github n s

    -- The cascade on the row as it was read.
    unfoldable pub cascade_on :
        ColdMissQueryRecord
        → String
        → List McpServerRecord
        → List McpServerRecord
        → CascadeState
        → Option ℕ × CascadeState
    unfolding registry_phase github_phase
    cascade_on q term registry github s =
        let (found, s') = registry_phase term registry s in
        if not q.registry_done
        then on_some found (λ n. after_registry q.github_done term github n s') (none, s')
        else github_part q.github_done term github 0 s

    -- `run_cold_miss_cascade`: the number of servers found, none where it raised, and the state.
    unfoldable pub run_cold_miss_cascade :
        String
        → List McpServerRecord
        → List McpServerRecord
        → CascadeState
        → Option ℕ × CascadeState
    unfolding cascade_on enqueue
    run_cold_miss_cascade term registry github s =
        on_some (get_query term s.queries) (λ q. cascade_on q term registry github s)
          (let (q, _, queries) = enqueue term s.queries in
            cascade_on q term registry github (record s { queries = queries }))
