-- ===== src/Verification/Queue/Eligible.antt =====
-- Which row `process_next_server` takes up.
use discovery_application.Base.{
  ℕ, ◌<◌, ◌≡◌, ◌≢◌, ◌⊎◌, inl, inr, refl, sym, ◌∙◌, true, false, ◌&&◌, arith, Option, none, some,
  List, [], ◌∷◌, All, In, In-All, length, find?, find?-some, find?-none, on_some, on_some_ind, Bool,
}
use discovery_application.Verification.Models.{
  McpServerRecord, ServerStatus, status_in, is_verified,
}
use discovery_application.Verification.Registry.{
  Engine, IsEngine, Rows, first, list_status, list_expired_ttl, has_expired,
}
use discovery_application.Verification.Queue.{
  due_for_attempt, queued_is_eligible, review_is_eligible, next_server,
}

-- What makes a row worth a verification at the time `now`.
abbrev pub IsEligible : ℕ → McpServerRecord → Type 0
IsEligible now r =
    (r.status ≡ ServerStatus.pending)
    ⊎ ((r.status ≡ ServerStatus.retry_pending) × (due_for_attempt r now ≡ true))
    ⊎ ((r.status ≡ ServerStatus.verified) × (has_expired now r.ttl_expires_at ≡ true))
    ⊎ ((r.status ≡ ServerStatus.review)
        × (r.attempts_completed < r.attempts_planned)
        × (due_for_attempt r now ≡ true))

queued_status :
    (s : ServerStatus)
    → status_in (ServerStatus.pending ∷ ServerStatus.retry_pending ∷ []) s ≡ true
    → (s ≡ ServerStatus.pending) ⊎ (s ≡ ServerStatus.retry_pending)
queued_status s h = ground arith

review_status :
    (s : ServerStatus) → status_in (ServerStatus.review ∷ []) s ≡ true → s ≡ ServerStatus.review
review_status s h = ground arith

verified_status : (s : ServerStatus) → is_verified s ≡ true → s ≡ ServerStatus.verified
verified_status s h = ground arith

first-In : (xs : List McpServerRecord) (r : McpServerRecord) → first xs ≡ some r → In r xs
first-In [] r h = cc
first-In (x ∷ xs) r h = inl (cc)

both : (a b : Bool) → (a && b) ≡ true → (a ≡ true) × (b ≡ true)
both a b h = ground arith

none_of_on_some : {A : Type 0} (o rest : Option A) → on_some o some rest ≡ none → o ≡ none
none_of_on_some none rest h = refl
none_of_on_some (some a) rest h = cc

module _ {db : Engine McpServerRecord} (law : IsEngine db) (now : ℕ) (rows : Rows)
    (r : McpServerRecord) where
  abbrev Chosen : Option McpServerRecord → Type 0
  Chosen o = o ≡ some r → In r rows × IsEligible now r

  from_queued :
      find?
          (queued_is_eligible now)
          (list_status db (ServerStatus.pending ∷ ServerStatus.retry_pending ∷ []) 5 rows)
        ≡ some r
      → In r rows × IsEligible now r
  unfolding list_status queued_is_eligible
  from_queued h =
      let (listed, eligible) = find?-some _ _ r h in
      let (status, i) = In-All _ _ (law.sound _ 5 rows) listed in
      (i, ground (arith, queued_status r.status))

  from_expired : first (list_expired_ttl db now 1 rows) ≡ some r → In r rows × IsEligible now r
  unfolding list_expired_ttl
  from_expired h =
      let (tests, i) = In-All _ _ (law.sound _ 1 rows) (first-In _ r h) in
      let (status, late) = both _ _ tests in
      (i, inr (inr (inl (verified_status r.status status, late))))

  from_reviewing :
      find? (review_is_eligible now) (list_status db (ServerStatus.review ∷ []) 20 rows) ≡ some r
      → In r rows × IsEligible now r
  unfolding list_status review_is_eligible
  from_reviewing h =
      let (listed, eligible) = find?-some _ _ r h in
      let (status, i) = In-All _ _ (law.sound _ 20 rows) listed in
      (i, ground (arith, review_status r.status))

-- The row that the worker takes up is in the table and is worth a run: it is pending, or a retry
-- whose backoff has passed, or verified with an expired TTL, or under review with attempts left
-- and its backoff passed. A reviewed row without attempts left is never taken up.
pub next_server-IsEligible :
    {db : Engine McpServerRecord} (law : IsEngine db) (now : ℕ) (rows : Rows) (r : McpServerRecord)
    → next_server db now rows ≡ some r
    → In r rows × IsEligible now r
unfolding next_server
next_server-IsEligible {db} law now rows r =
    on_some_ind (Chosen law now rows r) _ (λ a e same. from_queued law now rows r (e ∙ same))
      λ none_queued.
        on_some_ind (Chosen law now rows r) _ (λ a e same. from_expired law now rows r (e ∙ same))
          λ none_expired. from_reviewing law now rows r

pub listed_pending :
    (r : McpServerRecord)
    → r.status ≡ ServerStatus.pending
    → status_in (ServerStatus.pending ∷ ServerStatus.retry_pending ∷ []) r.status ≡ true
listed_pending r h = rw h

pub listed_retry :
    (r : McpServerRecord)
    → r.status ≡ ServerStatus.retry_pending
    → status_in (ServerStatus.pending ∷ ServerStatus.retry_pending ∷ []) r.status ≡ true
listed_retry r h = rw h

eligible_pending :
    (now : ℕ) (r : McpServerRecord)
    → r.status ≡ ServerStatus.pending
    → queued_is_eligible now r ≡ true
unfolding queued_is_eligible
eligible_pending now r h = rw h

eligible_due :
    (now : ℕ) (r : McpServerRecord) → due_for_attempt r now ≡ true → queued_is_eligible now r ≡ true
unfolding queued_is_eligible
eligible_due now r h = rw h (ground arith)

not_listed :
    {db : Engine McpServerRecord} (law : IsEngine db) (now : ℕ) (rows : Rows) (r : McpServerRecord)
    → length (list_status db (ServerStatus.pending ∷ ServerStatus.retry_pending ∷ []) 5 rows) < 5
    → All
        (λ x. queued_is_eligible now x ≡ false)
        (list_status db (ServerStatus.pending ∷ ServerStatus.retry_pending ∷ []) 5 rows)
    → In r rows
    → status_in (ServerStatus.pending ∷ ServerStatus.retry_pending ∷ []) r.status ≡ true
    → queued_is_eligible now r ≡ true
    → ◌≡◌ {A = Bool} true false
unfolding list_status
not_listed law now rows r short missed i status eligible =
    sym eligible ∙ In-All _ _ missed (law.complete _ 5 rows short r i status)

-- If the worker finds nothing to do and fewer than five rows are queued, no row of the table is
-- pending, and no retry is due.
pub next_server-none :
    {db : Engine McpServerRecord} (law : IsEngine db) (now : ℕ) (rows : Rows) (r : McpServerRecord)
    → length (list_status db (ServerStatus.pending ∷ ServerStatus.retry_pending ∷ []) 5 rows) < 5
    → next_server db now rows ≡ none
    → In r rows
    → (r.status ≢ ServerStatus.pending)
      × ¬ ((r.status ≡ ServerStatus.retry_pending) × (due_for_attempt r now ≡ true))
unfolding next_server
next_server-none {db} law now rows r short idle i =
    let queued = list_status db (ServerStatus.pending ∷ ServerStatus.retry_pending ∷ []) 5 rows in
    let missed : All (λ x. queued_is_eligible now x ≡ false) queued =
      find?-none _ queued (none_of_on_some _ _ idle) in
    (
      (λ pending. cc (
          not_listed law now rows r short missed i (listed_pending r pending)
            (eligible_pending now r pending))),
      (λ (retry, due). cc (
          not_listed law now rows r short missed i (listed_retry r retry)
            (eligible_due now r due))),
    )
