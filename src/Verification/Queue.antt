-- ===== src/Verification/Queue.antt =====
-- The background worker, platform/backend/app/verification/queue.py: which server is verified
-- next, one round of the worker, the TTL sweep and the ingestion of a candidate. What talks to a
-- network is a parameter: `attempt` is one run of the verifiers, up to its outcome, and
-- `with_size` the prefilter with the package's size, `prefilter` the static prefilter; both give
-- none where they raised.
pub mod Eligible
pub mod Starved
pub mod Worker
pub mod Crash
pub mod Poison
use mathlib.Core.Option
use discovery_application.Base.{
  ℕ, ◌+◌, ◌*◌, String, Bool, true, false, not, ◌&&◌, ◌||◌, Option, none, some, List, [], ◌∷◌, ◌++◌,
  find?, on_some, is_some, ltb, leb, length, if◌then◌else◌,
}
use discovery_application.Verification.Models.{
  McpServerRecord, ServerStatus, Stamp, at, unreadable, VerificationStage, VerificationDetails,
  VerificationDecisionRecord, is_pending,
}
use discovery_application.Verification.Checks.{AttemptOutcome, next_retry_delay}
use discovery_application.Verification.Pipeline.{Providers, finalize, verdict, decision_from}
use discovery_application.Verification.Registry.{
  Engine, Rows, first, list_status, list_expired_ttl, update,
}
use discovery_application.Verification.Prefilter.{PrefilterResult, PrefilterStatus}
use discovery_application.Verification.Ingestion.{IngestionResult, ingest}

abbrev pub microseconds_per_second : ℕ
microseconds_per_second = 1_000_000

-- `_due_for_attempt`, at the time `now`.
unfoldable pub due_for_attempt : McpServerRecord → ℕ → Bool
due_for_attempt r now = elim r.last_attempt_at [
  | none ↦ true
  | some stamp ↦ elim stamp [
    | unreadable ↦ true
    | at last ↦ leb (last + next_retry_delay r.attempts_completed * microseconds_per_second) now
  ]
]

-- The first loop of `process_next_server`: it stops at the first row that passes either test.
unfoldable pub queued_is_eligible : ℕ → McpServerRecord → Bool
queued_is_eligible now r = is_pending r.status || due_for_attempt r now

unfoldable pub review_is_eligible : ℕ → McpServerRecord → Bool
review_is_eligible now r = ltb r.attempts_completed r.attempts_planned && due_for_attempt r now

-- The row that the worker takes up.
unfoldable pub next_server : Engine McpServerRecord → ℕ → Rows → Option McpServerRecord
next_server db now rows =
    let queued = list_status db (ServerStatus.pending ∷ ServerStatus.retry_pending ∷ []) 5 rows in
    let expired = list_expired_ttl db now 1 rows in
    let reviewing = list_status db (ServerStatus.review ∷ []) 20 rows in
    on_some (find? (queued_is_eligible now) queued) some
      (on_some (first expired) some (find? (review_is_eligible now) reviewing))

-- What a failed prefilter writes.
unfoldable pub prefilter_status : PrefilterResult → ServerStatus
prefilter_status p = elim p.status [
  | PrefilterStatus.rejected ↦ ServerStatus.rejected
  | PrefilterStatus.malformed ↦ ServerStatus.malformed
  | PrefilterStatus.passed ↦ ServerStatus.malformed
]

unfoldable pub reject_by : PrefilterResult → McpServerRecord → McpServerRecord
reject_by p r = record r {
  status = prefilter_status p;
  rejection_stage = some VerificationStage.prefilter;
  rejection_check = first p.failures;
}

-- A run of the verifiers: an exception with the first 500 characters of its text, or the record, with the auth fields that
-- the run refined, and the outcome.
pub data Attempted : Type 0 where
  crashed : String → Attempted
  finished : McpServerRecord → AttemptOutcome → Attempted

-- What the worker writes when `pipeline.verify` raised.
unfoldable pub crash_updates : McpServerRecord → String → ℕ → McpServerRecord → McpServerRecord
crash_updates seen message now row =
    let details = seen.verification_details in
    record row {
      status = ServerStatus.retry_pending;
      last_attempt_at = some (at now);
      verification_details = record details { worker_error = some message };
    }

pub record WorkerState : Type 0 where
  pub servers : Rows
  pub decisions : List VerificationDecisionRecord

-- `pipeline.verify` and the handler round it; `done` is the time when it ended.
unfoldable pub after_attempt :
    Providers → Attempted → McpServerRecord → ℕ → WorkerState → WorkerState
after_attempt providers (crashed message) r done s = record s {
  servers = update r.server_id (crash_updates r message done) s.servers;
}
after_attempt providers (finished refined o) r done s = record s {
  servers = update r.server_id (λ _. finalize providers refined o done) s.servers;
  decisions = s.decisions ++ decision_from refined o (verdict providers refined o) done ∷ [];
}

module _ (db : Engine McpServerRecord) (providers : Providers)
    (prefilter : McpServerRecord → Option PrefilterResult)
    (attempt : McpServerRecord → Attempted) where
  unfoldable pub process : McpServerRecord → ℕ → WorkerState → WorkerState
  process r done s =
      on_some (prefilter r)
        (λ p.
          if p.passed
          then after_attempt providers (attempt r) r done s
          else record s { servers = update r.server_id (reject_by p) s.servers })
        s

  -- One round of the worker; `now` and `done` are its two readings of the clock. An exception that
  -- leaves the round counts as no work: the loop logs it and sleeps.
  unfoldable pub process_next_server : ℕ → ℕ → WorkerState → Bool × WorkerState
  process_next_server now done s =
      on_some (next_server db now s.servers) (λ r. (is_some (prefilter r), process r done s))
        (false, s)

  -- `verification_loop`: rounds with their readings of the clock; a round without work only
  -- sleeps.
  unfoldable pub verification_loop : List (ℕ × ℕ) → WorkerState → WorkerState
  verification_loop [] s = s
  verification_loop ((now, done) ∷ times) s =
      verification_loop times (process_next_server now done s).1

-- `requeue_expired_ttl`: the attempts of each expired row are reset, and the rows are counted.
unfoldable pub reset_each : List McpServerRecord → Rows → Rows
reset_each [] rows = rows
reset_each (r ∷ rest) rows =
    reset_each rest (update r.server_id (λ row. record row { attempts_completed = 0 }) rows)

unfoldable pub requeue_expired_ttl : Engine McpServerRecord → ℕ → Rows → ℕ × Rows
unfolding reset_each
requeue_expired_ttl db now rows =
    let expired = list_expired_ttl db now 50 rows in (length expired, reset_each expired rows)

-- `_ingest_candidate`, after the candidate was made a record: 1 if it entered the queue, and none
-- where the prefilter raised, which leaves the new row as it was stored.
abbrev pub bare_details : List String → VerificationDetails
bare_details failures = record {
  stages = [];
  last_score = none;
  tools = [];
  prefilter_failures = some failures;
  worker_error = none;
}

module _ (db : Engine McpServerRecord) (repo_identity : Option String → Option String)
    (with_size : McpServerRecord → Option PrefilterResult) where
  unfoldable pub admit : McpServerRecord → Rows → Option ℕ × Rows
  admit stored rows =
      on_some (with_size stored)
        (λ p.
          if p.passed
          then (
            some 1,
            update stored.server_id (λ row. record row { status = ServerStatus.pending }) rows,
          )
          else (
            some 0,
            update stored.server_id
                (λ row.
                  let rejected = reject_by p row in
                  record rejected { verification_details = bare_details p.failures })
                rows,
          ))
        (none, rows)

  unfoldable pub ingest_candidate : McpServerRecord → Rows → Option ℕ × Rows
  unfolding admit
  ingest_candidate r rows =
      let (result, rows') = ingest db repo_identity r rows in
      if result.created then admit result.stored rows' else (some 0, rows')
