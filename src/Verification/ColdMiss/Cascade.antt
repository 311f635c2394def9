-- ===== src/Verification/ColdMiss/Cascade.antt =====
-- What the cascade leaves in the row of its term.
use discovery_application.Base.{
  ℕ, ◌≡◌, ◌≢◌, ◌⊎◌, All-mono, arith, String, true, false, Option, none, some, List, In, lookup-put,
  All,
}
use discovery_application.Verification.Models.{McpServerRecord}
use discovery_application.Verification.Registry.{Engine, IsEngine, Rows}
use discovery_application.Verification.Prefilter.{PrefilterResult}
use discovery_application.Verification.Ingestion.{ingest}
use discovery_application.Verification.ColdMiss.{
  ColdMissStatus, ColdMissQueryRecord, CascadeState, get_query, enqueue, write, begin_github,
  list_pending, is_listed, is_done,
}

listed_status : (s : ColdMissStatus) → is_listed s ≡ true → s ≢ ColdMissStatus.checking_github
listed_status s h = ground arith

module _ (query_key : String → String) (term : String) where
  abbrev Holds : CascadeState → ColdMissQueryRecord → Type 0
  Holds s q = get_query query_key term s.queries ≡ some q

  write-Holds :
      (change : ColdMissQueryRecord → ColdMissQueryRecord) (s : CascadeState)
      (q : ColdMissQueryRecord)
      → Holds s q
      → Holds (write query_key term change s) (change q)
  unfolding write get_query
  write-Holds change s q h = rw h (lookup-put (query_key term) (change q) s.queries)

  module _ (db : Engine McpServerRecord) (repo_identity : Option String → Option String)
      (with_size : McpServerRecord → Option PrefilterResult) where
    -- The prefilter raises on a row that is stored for one of the candidates.
    abbrev pub Raises : List McpServerRecord → Type 0
    Raises candidates =
        (r : McpServerRecord) × In r candidates
        × (rows : Rows) × (with_size (ingest db repo_identity r rows).0.stored ≡ none)

    -- A step that keeps the row `q`, or raised and left it.
    abbrev Kept : List McpServerRecord → ColdMissQueryRecord → Option ℕ × CascadeState → Type 0
    Kept candidates q result = Holds result.1 q × (result.0 ≡ none → Raises candidates)

    -- The row at the end of a cascade that returned a number of servers, or raised.
    abbrev pub IsFinished : List McpServerRecord → Option ℕ × CascadeState → Type 0
    IsFinished candidates result =
        (q : ColdMissQueryRecord) × (get_query query_key term result.1.queries ≡ some q)
        × (((n : ℕ) × (result.0 ≡ some n)
              × (q.status ≡ ColdMissStatus.done)
              × (q.servers_found ≡ n))
            ⊎ ((result.0 ≡ none) × (is_done q.status ≡ false) × Raises candidates))

  -- Over a database that keeps the promises of SELECT, a row that a stop of the process left in the
  -- GitHub part stays there: queueing the term again returns it and changes nothing, and the list
  -- of pending rows has no row of this status.
  pub begin_github-stuck :
      {db : Engine ColdMissQueryRecord} (law : IsEngine db) (limit : ℕ) (s : CascadeState)
      (q : ColdMissQueryRecord)
      → get_query query_key term s.queries ≡ some q
      → (enqueue query_key term (begin_github query_key term s).queries ≡ (
        record q { status = ColdMissStatus.checking_github },
        false,
        (begin_github query_key term s).queries,
      ))
        × All
            (λ r. r.status ≢ ColdMissStatus.checking_github)
            (list_pending db limit (begin_github query_key term s).queries)
  unfolding enqueue list_pending
  begin_github-stuck law limit s q held = (
    rw (write-Holds _ s q held),
    All-mono _ _ _ (λ r (listed, _). listed_status r.status listed) (law.sound _ limit _),
  )
