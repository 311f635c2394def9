-- ===== src/Verification/Queue/Starved.antt =====
-- A row that the five-row window of `process_next_server` hides.
use discovery_application.Base.{
  ℕ, ◌≡◌, false, ◌&&◌, arith, none, [], ◌∷◌, ◌++◌, All, length, find?, find?-miss, keep, keep-All,
  keep_none, All-append, All-mono, take-append, Bool,
}
use discovery_application.Verification.Models.{
  McpServerRecord, ServerStatus, status_in, is_verified,
}
use discovery_application.Verification.Registry.{
  Rows, first, list_status, list_expired_ttl, has_expired, in_order,
}
use discovery_application.Verification.Queue.{
  due_for_attempt, queued_is_eligible, review_is_eligible, next_server,
}
use discovery_application.Verification.Queue.Eligible.{listed_pending, listed_retry}

not_eligible :
    (now : ℕ) (r : McpServerRecord)
    → r.status ≡ ServerStatus.retry_pending
    → due_for_attempt r now ≡ false
    → queued_is_eligible now r ≡ false
unfolding queued_is_eligible
not_eligible now r e d = ground arith

module _ (now : ℕ) (blocked waiting : Rows) where
  abbrev AreBlocked : Type 0
  AreBlocked =
      All (λ r. (r.status ≡ ServerStatus.retry_pending) × (due_for_attempt r now ≡ false)) blocked

  abbrev AreWaiting : Type 0
  AreWaiting = All (λ r. r.status ≡ ServerStatus.pending) waiting

  keep_no :
      (p : McpServerRecord → Bool)
      → ((r : McpServerRecord) → r.status ≡ ServerStatus.retry_pending → p r ≡ false)
      → ((r : McpServerRecord) → r.status ≡ ServerStatus.pending → p r ≡ false)
      → AreBlocked
      → AreWaiting
      → keep p (blocked ++ waiting) ≡ []
  keep_no p f g h k = keep_none p (blocked ++ waiting) (
      All-append _ blocked waiting (All-mono _ _ blocked (λ r e. f r e.0) h)
        (All-mono _ _ waiting g k))

  starved_queue :
      length blocked ≡ 5
      → AreBlocked
      → AreWaiting
      → find? (queued_is_eligible now) (
          list_status in_order
            (ServerStatus.pending ∷ ServerStatus.retry_pending ∷ [])
            5
            (blocked ++ waiting))
        ≡ none
  unfolding list_status
  starved_queue five h k =
      rw
        (
          keep-All _ (blocked ++ waiting) (
              All-append _ blocked waiting (All-mono _ _ blocked (λ r e. listed_retry r e.0) h)
                (All-mono _ _ waiting listed_pending k)),
          ← five,
          take-append blocked waiting,
        )
        (find?-miss _ blocked (All-mono _ _ blocked (λ r e. not_eligible now r e.0 e.1) h))

  starved_expired :
      AreBlocked → AreWaiting → first (list_expired_ttl in_order now 1 (blocked ++ waiting)) ≡ none
  unfolding list_expired_ttl
  starved_expired h k = rw (
      keep_no (λ r. is_verified r.status && has_expired now r.ttl_expires_at) (λ r e. rw e)
        (λ r e. rw e) h k)

  starved_review :
      AreBlocked
      → AreWaiting
      → find?
          (review_is_eligible now)
          (list_status in_order (ServerStatus.review ∷ []) 20 (blocked ++ waiting))
        ≡ none
  unfolding list_status
  starved_review h k =
      rw (
        keep_no (λ r. status_in (ServerStatus.review ∷ []) r.status) (λ r e. rw e) (λ r e. rw e) h
          k)

-- Five retries that are not due, ahead in the table, hide every pending row behind them: the
-- worker finds nothing to do.
pub next_server_starved :
    (now : ℕ) (blocked waiting : Rows)
    → length blocked ≡ 5
    → All (λ r. (r.status ≡ ServerStatus.retry_pending) × (due_for_attempt r now ≡ false)) blocked
    → All (λ r. r.status ≡ ServerStatus.pending) waiting
    → next_server in_order now (blocked ++ waiting) ≡ none
unfolding next_server
next_server_starved now blocked waiting five h k = rw (
  starved_queue now blocked waiting five h k,
  starved_expired now blocked waiting h k,
  starved_review now blocked waiting h k,
)
