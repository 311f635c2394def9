-- ===== src/Verification/Queue/Poison.antt =====
-- A row whose prefilter raises.
use discovery_application.Base.{
  String, false, is_empty, ℕ, ◌≡◌, refl, ◌∙◌, ap, Option, none, some, List, [], ◌∷◌, All,
}
use discovery_application.Verification.Models.{McpServerRecord, ServerStatus, is_local}
use discovery_application.Verification.Pipeline.{Providers}
use discovery_application.Verification.Registry.{Engine, Rows, in_order, list_status}
use discovery_application.Verification.Prefilter.{PrefilterResult, ParsedUrl, prefilter_server}
use discovery_application.Verification.Prefilter.Screen.{endpoint_of, prefilter_server-raised}
use discovery_application.Verification.Queue.{
  Attempted, WorkerState, queued_is_eligible, next_server, process, process_next_server,
  verification_loop,
}

module _ (db : Engine McpServerRecord) (providers : Providers)
    (prefilter : McpServerRecord → Option PrefilterResult)
    (attempt : McpServerRecord → Attempted) where
  raised-round :
      (now done : ℕ) (s : WorkerState) (r : McpServerRecord)
      → next_server db now s.servers ≡ some r
      → prefilter r ≡ none
      → (process_next_server db providers prefilter attempt now done s).1 ≡ s
  unfolding process_next_server process
  raised-round now done s r taken raised = rw (taken, raised) refl

  -- While the row that the worker takes up makes the prefilter raise, no round changes anything:
  -- the row is neither rejected nor put off, and no other row is verified.
  pub verification_loop-raised :
      (times : List (ℕ × ℕ)) (s : WorkerState) (r : McpServerRecord)
      → All (λ time. next_server db time.0 s.servers ≡ some r) times
      → prefilter r ≡ none
      → verification_loop db providers prefilter attempt times s ≡ s
  unfolding verification_loop
  verification_loop-raised [] s r taken raised = refl
  verification_loop-raised ((now, done) ∷ times) s r (first_up, taken) raised =
      ap (verification_loop db providers prefilter attempt times)
        (raised-round now done s r first_up raised)
      ∙ verification_loop-raised times s r taken raised

-- A pending row that comes first in a scan is the one taken up, at any time.
pending-taken :
    (now : ℕ) (r : McpServerRecord) (rest : Rows)
    → r.status ≡ ServerStatus.pending
    → next_server in_order now (r ∷ rest) ≡ some r
unfolding next_server list_status queued_is_eligible
pending-taken now r rest p = simp p

-- On a table scanned in order, a pending remote server at its front whose endpoint `urlparse`
-- refuses with an exception stops the worker for good: no round changes any row.
pub verification_loop-unparsable :
    (urlparse : String → Option ParsedUrl) (providers : Providers)
    (attempt : McpServerRecord → Attempted) (times : List (ℕ × ℕ)) (s : WorkerState)
    (r : McpServerRecord) (rest : Rows)
    → s.servers ≡ r ∷ rest
    → r.status ≡ ServerStatus.pending
    → is_local r.transport ≡ false
    → is_empty (endpoint_of r) ≡ false
    → urlparse (endpoint_of r) ≡ none
    → verification_loop in_order providers (prefilter_server urlparse none) attempt times s ≡ s
verification_loop-unparsable urlparse providers attempt times s r rest table pending remote filled
      bad =
    verification_loop-raised in_order providers (prefilter_server urlparse none) attempt times s r
      (everywhere times) (prefilter_server-raised urlparse none r remote filled bad)
  where
    everywhere :
        (times : List (ℕ × ℕ)) → All (λ time. next_server in_order time.0 s.servers ≡ some r) times
    everywhere [] = tt
    everywhere ((now, done) ∷ times) =
        (rw table (pending-taken now r rest pending), everywhere times)
