-- ===== src/Verification/Queue/Crash.antt =====
-- A verification that raises is not counted as an attempt.
use native.Mathlib.Nat.{le_refl, le_trans}
use text.Mathlib.TextPositions.{eq_refl}
use discovery_application.Base.{
  ℕ, ◌≤◌, ◌≡◌, ◌≢◌, refl, ap, subst, sym, true, false, arith, Option, none, some, String, List, [],
  ◌∷◌, All, str_eq, str_eq_iff,
}
use discovery_application.Verification.Models.{McpServerRecord, ServerStatus, status_in}
use discovery_application.Verification.Pipeline.{Providers}
use discovery_application.Verification.Registry.{Rows, list_status, update, in_order}
use discovery_application.Verification.Prefilter.{PrefilterResult, ParsedUrl, prefilter_server}
use discovery_application.Verification.Checks.{next_retry_delay}
use discovery_application.Verification.Queue.{
  Attempted, crashed, WorkerState, due_for_attempt, queued_is_eligible, next_server, crash_updates,
  after_attempt, process, process_next_server, verification_loop,
}

-- A queued row without a counted attempt, last tried by the time `now`.
pub record IsStuck (now : ℕ) (r : McpServerRecord) : Type 0 where
  pub queued : status_in (ServerStatus.pending ∷ ServerStatus.retry_pending ∷ []) r.status ≡ true
  pub uncounted : r.attempts_completed ≡ 0
  pub due : (t : ℕ) → now ≤ t → due_for_attempt r t ≡ true

crash-IsStuck :
    (seen : McpServerRecord) (message : String) (done : ℕ) (row : McpServerRecord)
    → row.attempts_completed ≡ 0
    → IsStuck done (crash_updates seen message done row)
unfolding crash_updates due_for_attempt next_retry_delay
crash-IsStuck seen message done row h = record {
  queued = refl;
  uncounted = h;
  due = λ t le. rw h (ground arith);
}

IsStuck-later : (t now : ℕ) (r : McpServerRecord) → t ≤ now → IsStuck t r → IsStuck now r
IsStuck-later t now r before k = record {
  queued = k.queued;
  uncounted = k.uncounted;
  due = λ u le. k.due u (le_trans before le);
}

crash-server_id :
    (seen : McpServerRecord) (message : String) (done : ℕ) (row : McpServerRecord)
    → (crash_updates seen message done row).server_id ≡ row.server_id
unfolding crash_updates
crash-server_id seen message done row = refl

-- The table's other rows have other identifiers.
abbrev pub AreOthers : String → Rows → Type 0
AreOthers id = All (λ s. s.server_id ≢ id)

update_others :
    (id : String) (change : McpServerRecord → McpServerRecord) (rows : Rows)
    → AreOthers id rows
    → update id change rows ≡ rows
unfolding update
update_others id change [] h = refl
update_others id change (r ∷ rows) (h, hs) =
    simp (differs h) (ap (◌∷◌ r) (update_others id change rows hs))
  where
    differs : r.server_id ≢ id → str_eq r.server_id id ≡ false
    differs n = ground (arith, str_eq_iff r.server_id id)

stuck-eligible : (now : ℕ) (r : McpServerRecord) → IsStuck now r → queued_is_eligible now r ≡ true
unfolding queued_is_eligible
stuck-eligible now r k = simp (k.due now (le_refl now)) (ground arith)

pub taken :
    (now : ℕ) (r : McpServerRecord) (rest : Rows)
    → IsStuck now r
    → next_server in_order now (r ∷ rest) ≡ some r
unfolding next_server list_status
taken now r rest k = simp (k.queued, stuck-eligible now r k)

update_head :
    (r : McpServerRecord) (change : McpServerRecord → McpServerRecord) (rest : Rows)
    → AreOthers r.server_id rest
    → update r.server_id change (r ∷ rest) ≡ change r ∷ rest
unfolding update
update_head r change rest h =
    simp (eq_refl r.server_id) (ap (◌∷◌ (change r)) (update_others r.server_id change rest h))

-- Readings of the clock that do not go back.
abbrev pub AreInOrder : ℕ → List (ℕ × ℕ) → Type 0
AreInOrder t [] = Unit {0}
AreInOrder t ((now, done) ∷ times) = (t ≤ now) × (now ≤ done) × AreInOrder done times

-- Verifiers that always raise.
abbrev pub crashing : String → McpServerRecord → Attempted
crashing message _ = crashed message

-- The record passes the static prefilter.
abbrev pub Passes : (String → Option ParsedUrl) → McpServerRecord → Type 0
Passes urlparse r =
    (p : PrefilterResult) × (prefilter_server urlparse none r ≡ some p) × (p.passed ≡ true)

-- A raise changes nothing that the prefilter reads.
crash-Passes :
    (urlparse : String → Option ParsedUrl) (seen : McpServerRecord) (message : String) (done : ℕ)
    (r : McpServerRecord)
    → Passes urlparse r
    → Passes urlparse (crash_updates seen message done r)
unfolding crash_updates prefilter_server
crash-Passes urlparse seen message done r h = h

module _ (providers : Providers) (urlparse : String → Option ParsedUrl) (message : String) where
  process_crash :
      (r : McpServerRecord) (done : ℕ) (rest : Rows) (s : WorkerState)
      → Passes urlparse r
      → s.servers ≡ r ∷ rest
      → AreOthers r.server_id rest
      → (process in_order providers
          (prefilter_server urlparse none)
          (crashing message)
          r
          done
          s).servers
        ≡ crash_updates r message done r ∷ rest
  unfolding process after_attempt
  process_crash r done rest s (p, same, passed) e h =
      simp (same, passed) (rw e (update_head r (crash_updates r message done) rest h))

  round_crash :
      (now done : ℕ) (r : McpServerRecord) (rest : Rows) (s : WorkerState)
      → IsStuck now r
      → Passes urlparse r
      → s.servers ≡ r ∷ rest
      → AreOthers r.server_id rest
      → (process_next_server in_order providers
          (prefilter_server urlparse none)
          (crashing message)
          now
          done
          s).1.servers
        ≡ crash_updates r message done r ∷ rest
  unfolding process_next_server
  round_crash now done r rest s k good e h =
      let first_up : next_server in_order now s.servers ≡ some r = rw e (taken now r rest k) in
      rw first_up (process_crash r done rest s good e h)

  -- On a table scanned in order, a queued and due server that passes the static prefilter and whose
  -- verification raises each time, before any attempt of it was counted, keeps the worker to itself
  -- if its row comes first, the others have other identifiers, and the clock does not go back:
  -- however many rounds are run, it is still queued and due with no attempt counted, and no other
  -- row has changed.
  pub loop_monopoly :
      (t : ℕ) (times : List (ℕ × ℕ)) (r : McpServerRecord) (rest : Rows) (s : WorkerState)
      → AreInOrder t times
      → IsStuck t r
      → Passes urlparse r
      → s.servers ≡ r ∷ rest
      → AreOthers r.server_id rest
      → (r' : McpServerRecord) × ((verification_loop in_order providers
            (prefilter_server urlparse none)
            (crashing message)
            times
            s).servers
          ≡ r' ∷ rest)
        × (r'.attempts_completed ≡ 0)
        × (t' : ℕ) × IsStuck t' r'
  unfolding verification_loop
  loop_monopoly t [] r rest s o k good e h = (r, e, k.uncounted, t, k)
  loop_monopoly t ((now, done) ∷ times) r rest s (before, during, o) k good e h =
      loop_monopoly done times (crash_updates r message done r) rest
        (process_next_server in_order providers (prefilter_server urlparse none) (crashing message)
          now done s).1
        o (crash-IsStuck r message done r k.uncounted) (crash-Passes urlparse r message done r good)
        (round_crash now done r rest s (IsStuck-later t now r before k) good e h)
        (subst (λ id. AreOthers id rest) (sym (crash-server_id r message done r)) h)
