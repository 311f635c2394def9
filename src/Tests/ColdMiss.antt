-- ===== src/Tests/ColdMiss.antt =====
-- The cascade for one term.
use discovery_application.Base.{
  ◌≡◌, ◌≢◌, All, refl, String, true, false, Option, some, none, [], ◌∷◌,
}
use discovery_application.Verification.Models.{McpServerRecord}
use discovery_application.Verification.Registry.{
  in_order, get_by_source_url, get_by_registry_name, create, list_status, update,
}
use discovery_application.Verification.Registry.InOrder.{in_order-IsEngine}
use discovery_application.Verification.Ingestion.{ingest, insert, same_name, same_repository}
use discovery_application.Verification.Queue.{admit, ingest_candidate}
use discovery_application.Verification.Prefilter.{PrefilterResult, PrefilterStatus}
use discovery_application.Verification.ColdMiss.{
  ColdMissStatus, CascadeState, queued_row, get_query, update_query, write, begin_github, enqueue,
  list_pending, ingest_each, registry_phase, github_phase, cascade_on, run_cold_miss_cascade,
}
use discovery_application.Verification.ColdMiss.Cascade
use discovery_application.Tests.Samples.{server}

cascade : Unit {0}
unfolding ingest insert same_name same_repository get_by_source_url get_by_registry_name create
    list_status update admit ingest_candidate get_query update_query write enqueue ingest_each
    registry_phase github_phase cascade_on run_cold_miss_cascade list_pending
cascade = tt

-- A term is its own key.
abbrev key : String → String
key term = term

abbrev no_repository : Option String → Option String
no_repository url = none

abbrev accepting : McpServerRecord → Option PrefilterResult
accepting _ = some (record { passed = true; status = PrefilterStatus.passed; failures = [] })

-- A prefilter that cannot parse an endpoint.
abbrev raising : McpServerRecord → Option PrefilterResult
raising _ = none

abbrev empty : CascadeState
empty = record { servers = []; queries = [] }

abbrev asked : CascadeState
asked = record { servers = []; queries = ("mail", queued_row "mail") ∷ [] }

both_sources :
    ((run_cold_miss_cascade key in_order no_repository accepting "mail"
        (server "a" ∷ server "a" ∷ [])
        (server "b" ∷ [])
        empty).0
      ≡ some 1)
    × ((run_cold_miss_cascade key in_order no_repository accepting "mail" []
          (server "b" ∷ server "c" ∷ [])
          empty).0
        ≡ some 2)
    × ((run_cold_miss_cascade key in_order no_repository raising "mail"
          (server "a" ∷ [])
          []
          empty).0
        ≡ none)
unfolding cascade
both_sources = (refl, refl, refl)

begin_github-stuck_example :
    (enqueue key "mail" (begin_github key "mail" asked).queries ≡ (
      record (queued_row "mail") { status = ColdMissStatus.checking_github },
      false,
      (begin_github key "mail" asked).queries,
    ))
    × All
        (λ r. r.status ≢ ColdMissStatus.checking_github)
        (list_pending in_order 5 (begin_github key "mail" asked).queries)
unfolding get_query
begin_github-stuck_example =
    Cascade.begin_github-stuck key "mail" in_order-IsEngine 5 asked (queued_row "mail") refl
