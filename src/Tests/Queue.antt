-- ===== src/Tests/Queue.antt =====
-- Rounds of the worker over concrete tables.
use discovery_application.Base.{
  ℕ, ◌≡◌, ◌≢◌, String, refl, true, Option, none, some, [], ◌∷◌, In, arith, length, str_eq_iff,
}
use discovery_application.Verification.Models.{McpServerRecord, ServerStatus, at}
use discovery_application.Verification.Checks.{next_retry_delay}
use discovery_application.Verification.Pipeline.{Providers}
use discovery_application.Verification.Registry.{
  Rows, in_order, list_status, list_expired_ttl, update,
}
use discovery_application.Verification.Registry.InOrder.{in_order-IsEngine}
use discovery_application.Verification.Prefilter.{
  PrefilterResult, PrefilterStatus, prefilter_server,
}
use discovery_application.Verification.Queue.{
  Attempted, finished, WorkerState, due_for_attempt, queued_is_eligible, review_is_eligible,
  next_server, after_attempt, process, process_next_server, verification_loop,
}
use discovery_application.Verification.Queue.Eligible
use discovery_application.Verification.Queue.Eligible.{IsEligible}
use discovery_application.Verification.Queue.Crash
use discovery_application.Verification.Queue.Crash.{IsStuck, Passes, crashing}
use discovery_application.Tests.Samples.{server, ran}
use discovery_application.Tests.Pipeline.{pipeline}
use discovery_application.Tests.Prefilter.{parse, prefilter}

queue : Unit {0}
unfolding pipeline due_for_attempt next_retry_delay queued_is_eligible review_is_eligible
    next_server after_attempt process process_next_server list_status list_expired_ttl update
queue = tt

abbrev alone : Providers
alone = none

abbrev accepted : PrefilterResult
accepted = record { passed = true; status = PrefilterStatus.passed; failures = [] }

abbrev passing : McpServerRecord → Option PrefilterResult
passing _ = some accepted

abbrev connecting : McpServerRecord → Attempted
connecting r = finished r (ran "success")

-- A retry whose first attempt ended at the time 0: it waits for an hour.
abbrev waiting : McpServerRecord
waiting = record (server "w") {
  status = ServerStatus.retry_pending;
  attempts_completed = 1;
  last_attempt_at = some (at 0);
}

abbrev pair : Rows
pair = waiting ∷ server "a" ∷ []

picks :
    (next_server in_order 5 pair ≡ some (server "a"))
    × (next_server in_order 3_600_000_000 pair ≡ some waiting)
unfolding queue
picks = (refl, refl)

abbrev state : WorkerState
state = record { servers = pair; decisions = [] }

one_round : length (process_next_server in_order alone passing connecting 5 6 state).1.decisions ≡ 1
unfolding queue
one_round = refl

next_server-IsEligible_example : In (server "a") pair × IsEligible 5 (server "a")
unfolding queue
next_server-IsEligible_example =
    Eligible.next_server-IsEligible in_order-IsEngine 5 pair (server "a") refl

abbrev five : Rows
five = waiting ∷ waiting ∷ waiting ∷ waiting ∷ waiting ∷ []

w_not_a : ◌≢◌ {A = String} "w" "a"
w_not_a = ground (arith, str_eq_iff "w" "a")

a-IsStuck : IsStuck 1 (server "a")
unfolding due_for_attempt
a-IsStuck = record { queued = refl; uncounted = refl; due = λ t le. refl }

a-Passes : Passes parse (server "a")
unfolding prefilter
a-Passes = (accepted, refl, refl)

abbrev crash_state : WorkerState
crash_state = record { servers = server "a" ∷ waiting ∷ []; decisions = [] }

loop_monopoly_example :
    (r' : McpServerRecord) × ((verification_loop in_order alone
        (prefilter_server parse none)
        (crashing "down")
        ((2, 3) ∷ (3, 4) ∷ [])
        crash_state).servers
      ≡ r' ∷ waiting ∷ [])
    × (r'.attempts_completed ≡ 0)
    × (t' : ℕ) × IsStuck t' r'
loop_monopoly_example =
    Crash.loop_monopoly alone parse "down" 1 ((2, 3) ∷ (3, 4) ∷ []) (server "a") (waiting ∷ [])
      crash_state (omega arith, omega arith, (omega arith, omega arith, tt)) a-IsStuck a-Passes refl
      (w_not_a, tt)
