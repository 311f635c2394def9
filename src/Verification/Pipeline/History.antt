-- ===== src/Verification/Pipeline/History.antt =====
-- The stage log in `verification_details` is bounded and keeps the newest entries.
use discovery_application.Base.{
  ℕ, zero, suc, ◌-◌, ◌≤◌, ◌≡◌, refl, arith, List, [], ◌∷◌, ◌++◌, length, drop, length-append,
  length-drop,
}
use discovery_application.Verification.Models.{McpServerRecord, StageResult}
use discovery_application.Verification.Checks.{AttemptOutcome}
use discovery_application.Verification.Pipeline.{
  Providers, finalize, next_details, keep_last, recorded_stages, max_stage_results_kept,
}

module _ {ℓ} {A : Type ℓ} where
  drop-append : (k : ℕ) (xs ys : List A) → k ≤ length xs → drop k (xs ++ ys) ≡ drop k xs ++ ys
  drop-append zero xs ys h = refl
  drop-append (suc k) [] ys h = elim h [ ]
  drop-append (suc k) (x ∷ xs) ys h = drop-append k xs ys (omega arith)

  length-keep_last : (n : ℕ) (xs : List A) → length (keep_last n xs) ≤ n
  unfolding keep_last
  length-keep_last n xs = omega (arith, length-drop (length xs - n) xs)

  keep_last-append :
      (n : ℕ) (xs ys : List A) → length ys ≤ n → (zs : List A) × (keep_last n (xs ++ ys) ≡ zs ++ ys)
  unfolding keep_last
  keep_last-append n xs ys h =
      (drop (length (xs ++ ys) - n) xs, drop-append _ xs ys (omega (arith, length-append xs ys)))

finalize-stages :
    (providers : Providers) (r : McpServerRecord) (o : AttemptOutcome) (now : ℕ)
    → (finalize providers r o now).verification_details.stages
      ≡ keep_last max_stage_results_kept (r.verification_details.stages ++ recorded_stages o now)
unfolding finalize next_details
finalize-stages providers r o now = refl

-- A run that records at most 60 stages has them all, in order, at the end of the log, which never
-- holds more than 60 entries.
pub finalize-stages_window :
    (providers : Providers) (r : McpServerRecord) (o : AttemptOutcome) (now : ℕ)
    → length (recorded_stages o now) ≤ 60
    → (length (finalize providers r o now).verification_details.stages ≤ 60)
      × (old : List StageResult) × ((finalize providers r o now).verification_details.stages
          ≡ old ++ recorded_stages o now)
finalize-stages_window providers r o now h =
    let old = r.verification_details.stages in
    let new = recorded_stages o now in
    let (kept, same) = keep_last-append 60 old new h in
    rw (finalize-stages providers r o now) (length-keep_last 60 (old ++ new), kept, same)
