-- ===== src/Catalog/Phase10/Accounts.antt =====
-- Every candidate and every group is accounted for, and what is stored was approved.
use discovery_application.Base.{
  ℕ, ◌+◌, ◌≡◌, ◌≤◌, ◌<◌, subst, refl, arith, String, Bool, true, false, Option, none, some, List,
  [], ◌∷◌, ◌++◌, length, length-append, suc, All, on_some_ind,
}
use discovery_application.Catalog.Models.{Item, CandidateReference}
use discovery_application.Catalog.Reliability.{
  SourceUrl, ReliabilityEvaluationResult, apply_evaluation,
}
use discovery_application.Catalog.Reliability.Bounds.{evaluate-approved, evaluate-threshold}
use discovery_application.Catalog.Deduplication.{deduplicate}
use discovery_application.Catalog.Normalization.{Attempt}
use discovery_application.Catalog.Phase10.Returns.{process-returns}
use discovery_application.Catalog.Phase10.{
  Rejection, Phase10Result, collect_items, item_has_protocol_evidence, evaluation_of, ready,
  store_or_refuse, persist, process,
}

collect_items-length :
    (normalize : CandidateReference → Attempt (List Item)) (cs : List CandidateReference)
    → length cs
      ≡ (collect_items normalize cs).resolved + length (collect_items normalize cs).rejected
unfolding collect_items
collect_items-length normalize [] = omega arith
collect_items-length normalize (c ∷ cs) = ground (arith, collect_items-length normalize cs)

-- What holds of an output of the second loop over `n` groups, with `P` of what was stored.
abbrev Persisted :
    {Db : Type 0} → (Item → Type 0) → ℕ → Option (Db × List Item × List Rejection) → Type 0
Persisted P n none = Unit {0}
Persisted P n (some (db, stored, refused)) = (n ≡ length stored + length refused) × All P stored

-- The counts of a result add up, and `P` holds of what was stored.
record IsAccounted (P : Item → Type 0) (candidates : List CandidateReference) (r : Phase10Result)
    : Type 0 where
  seen : r.candidates_seen ≡ length candidates
  counted : r.candidates_seen + r.deduplicated ≡ r.resolved + length r.approved + length r.rejected
  kept : All P r.approved

-- An item with evidence of its protocol and a score that is high enough.
abbrev pub IsApproved : ℕ → Item → Type 0
IsApproved threshold item =
    (item_has_protocol_evidence item ≡ true) × (threshold ≤ item.reliability.score)

module _ {Db : Type 0} (urlparse : String → SourceUrl) (threshold now : ℕ)
    (embed_item : Item → String)
    (upsert_catalog_item : Item → ReliabilityEvaluationResult → Db → Option Db) where
  module _ (P : Item → Type 0)
      (stores : (item : Item)
        → (evaluation_of urlparse threshold now embed_item upsert_catalog_item item).approved ≡ true
        → P (ready urlparse threshold now embed_item upsert_catalog_item item)) where
    store_or_refuse-Persisted :
        (approved : Bool) (n : ℕ) (item : Item)
        (go_on : Db → Option (Db × List Item × List Rejection)) (db : Db)
        → (evaluation_of urlparse threshold now embed_item upsert_catalog_item item).approved
          ≡ approved
        → ((d : Db) → Persisted P n (go_on d))
        → Persisted P (suc n) (
            store_or_refuse urlparse threshold now embed_item upsert_catalog_item approved item
              go_on db)
    unfolding store_or_refuse
    store_or_refuse-Persisted true n item go_on db e h =
        on_some_ind (Persisted P (suc n))
          (upsert_catalog_item (ready urlparse threshold now embed_item upsert_catalog_item item)
            (evaluation_of urlparse threshold now embed_item upsert_catalog_item item) db)
          (λ db' _.
            on_some_ind (Persisted P (suc n)) (go_on db')
              (λ rest found.
                let (counted, kept) : Persisted P n (some rest) =
                  subst (Persisted P n) found (h db') in
                (omega arith, (stores item e, kept)))
              (λ _. tt))
          (λ _. tt)
    store_or_refuse-Persisted false n item go_on db e h =
        on_some_ind (Persisted P (suc n)) (go_on db)
          (λ rest found.
            let (counted, kept) : Persisted P n (some rest) = subst (Persisted P n) found (h db) in
            (omega arith, kept))
          (λ _. tt)

    pub persist-Persisted :
        (items : List Item) (db : Db)
        → Persisted P
            (length items)
            (persist urlparse threshold now embed_item upsert_catalog_item items db)
    unfolding persist
    persist-Persisted [] db = (omega arith, tt)
    persist-Persisted (item ∷ items) db =
        store_or_refuse-Persisted _ (length items) item _ db refl (persist-Persisted items)

    process-Persisted :
        (normalize : CandidateReference → Attempt (List Item)) (key : Item → String)
        (candidates : List CandidateReference) (db db' : Db) (result : Phase10Result)
        → process urlparse threshold now embed_item upsert_catalog_item normalize key candidates db
          ≡ some (db', result)
        → IsAccounted P candidates result
    unfolding process
    process-Persisted normalize key candidates db db' result =
        let found = collect_items normalize candidates in
        let groups = deduplicate key found.approved in
        let stored = persist urlparse threshold now embed_item upsert_catalog_item groups db in
        on_some_ind
          (λ (o : Option (Db × Phase10Result)).
            o ≡ some (db', result) → IsAccounted P candidates result)
          stored
          (λ out e h.
            let (counted, kept) : Persisted P (length groups) (some out) =
              subst (Persisted P (length groups)) e (persist-Persisted groups db) in
            let seen = collect_items-length normalize candidates in
            let same : record {
              candidates_seen = length candidates;
              resolved = found.resolved;
              deduplicated = length groups;
              approved = out.1;
              rejected = found.rejected ++ out.2;
            }
                ≡ result =
              cc in
            subst (IsAccounted P candidates) same (record {
              seen = refl;
              counted = omega (arith, length-append found.rejected out.2);
              kept = kept;
            }))
          (λ _ h. cc h)

  -- With a repository that takes every item, a run returns a result in which each candidate is
  -- counted, and the candidates and the groups together are as many as the resolved candidates, the
  -- stored items and the rejections together.
  pub process-accounts :
      ((item : Item) (r : ReliabilityEvaluationResult) (db : Db)
        → (db' : Db) × (upsert_catalog_item item r db ≡ some db'))
      → (normalize : CandidateReference → Attempt (List Item)) (key : Item → String)
        (candidates : List CandidateReference) (db : Db)
      → (out : Db × Phase10Result) × (process urlparse threshold now embed_item upsert_catalog_item
            normalize key candidates db
          ≡ some out)
        × (out.1.candidates_seen ≡ length candidates)
        × (out.1.candidates_seen + out.1.deduplicated
            ≡ out.1.resolved + length out.1.approved + length out.1.rejected)
  process-accounts takes normalize key candidates db =
      let (out, e) =
        process-returns urlparse threshold now embed_item upsert_catalog_item takes normalize key
          candidates db in
      let account =
        process-Persisted (λ item. Unit {0}) (λ item e. tt) normalize key candidates db out.0 out.1
          e in
      (out, e, account.seen, account.counted)

  ready-IsApproved :
      7000 < threshold
      → (item : Item)
      → (evaluation_of urlparse threshold now embed_item upsert_catalog_item item).approved ≡ true
      → IsApproved threshold (ready urlparse threshold now embed_item upsert_catalog_item item)
  unfolding ready apply_evaluation item_has_protocol_evidence
  ready-IsApproved high item e = (
    evaluate-approved urlparse threshold now item _ true high e,
    evaluate-threshold urlparse threshold now item _ true e,
  )

  -- With a threshold above 0.7, and where the repository raises nothing, every item that is stored
  -- has explicit evidence of its protocol and a score of at least the threshold.
  pub process-AreApproved :
      (normalize : CandidateReference → Attempt (List Item)) (key : Item → String)
      (candidates : List CandidateReference) (db db' : Db) (result : Phase10Result)
      → 7000 < threshold
      → process urlparse threshold now embed_item upsert_catalog_item normalize key candidates db
        ≡ some (db', result)
      → All (IsApproved threshold) result.approved
  process-AreApproved normalize key candidates db db' result high h =
      (process-Persisted (IsApproved threshold) (ready-IsApproved high) normalize key candidates db
        db' result h).kept
