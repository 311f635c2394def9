-- ===== src/Catalog/Phase10/Returns.antt =====
-- A run of the pipeline returns where the repository takes every item.
use discovery_application.Base.{
  ℕ, ◌≡◌, ap, ◌∙◌, refl, String, Bool, true, false, Option, none, some, List, [], ◌∷◌, ◌++◌, length,
  on_some,
}
use discovery_application.Catalog.Models.{Item, CandidateReference}
use discovery_application.Catalog.Reliability.{SourceUrl, ReliabilityEvaluationResult}
use discovery_application.Catalog.Deduplication.{deduplicate}
use discovery_application.Catalog.Normalization.{Attempt}
use discovery_application.Catalog.Phase10.{
  Rejection, Phase10Result, collect_items, evaluation_of, ready, below_threshold, store_or_refuse,
  persist, process,
}

module _ {Db : Type 0} (urlparse : String → SourceUrl) (threshold now : ℕ)
    (embed_item : Item → String)
    (upsert_catalog_item : Item → ReliabilityEvaluationResult → Db → Option Db) where
  module _
      (takes : (item : Item) (r : ReliabilityEvaluationResult) (db : Db)
        → (db' : Db) × (upsert_catalog_item item r db ≡ some db')) where
    store_or_refuse-returns :
        (approved : Bool) (item : Item) (go_on : Db → Option (Db × List Item × List Rejection))
        → (db : Db) → ((d : Db) → (out : Db × List Item × List Rejection) × (go_on d ≡ some out))
        → (out : Db × List Item × List Rejection) × (store_or_refuse urlparse threshold now
              embed_item upsert_catalog_item approved item go_on db
            ≡ some out)
    unfolding store_or_refuse
    store_or_refuse-returns true item go_on db go =
        let (db', e) =
          takes (ready urlparse threshold now embed_item upsert_catalog_item item)
            (evaluation_of urlparse threshold now embed_item upsert_catalog_item item) db in
        let (rest, h) = go db' in
        (
          _,
          ap
                (λ o.
                  on_some o
                    (λ d.
                      on_some (go_on d)
                        (λ r. some (
                          r.0,
                          ready urlparse threshold now embed_item upsert_catalog_item item ∷ r.1,
                          r.2,
                        ))
                        none)
                    none)
                e
              ∙ ap
                  (λ o.
                    on_some o
                      (λ r. some (
                        r.0,
                        ready urlparse threshold now embed_item upsert_catalog_item item ∷ r.1,
                        r.2,
                      ))
                      none)
                  h,
        )
    store_or_refuse-returns false item go_on db go =
        let (rest, h) = go db in
        (
          _,
          ap
              (λ o.
                on_some o
                  (λ r. some (
                    r.0,
                    r.1,
                    below_threshold urlparse threshold now embed_item upsert_catalog_item item
                        ∷ r.2,
                  ))
                  none)
              h,
        )

    persist-returns :
        (items : List Item) (db : Db)
        → (out : Db × List Item × List Rejection) × (persist urlparse threshold now embed_item
              upsert_catalog_item items db
            ≡ some out)
    unfolding persist
    persist-returns [] db = (_, refl)
    persist-returns (item ∷ items) db = store_or_refuse-returns _ item _ db (persist-returns items)

    pub process-returns :
        (normalize : CandidateReference → Attempt (List Item)) (key : Item → String)
        (candidates : List CandidateReference) (db : Db)
        → (out : Db × Phase10Result) × (process urlparse threshold now embed_item
              upsert_catalog_item normalize key candidates db
            ≡ some out)
    unfolding process
    process-returns normalize key candidates db =
        let found = collect_items normalize candidates in
        let groups = deduplicate key found.approved in
        let (out, h) = persist-returns groups db in
        (
          _,
          ap
              (λ o.
                on_some o
                  (λ (out : Db × List Item × List Rejection). some (
                    out.0,
                    record {
                      candidates_seen = length candidates;
                      resolved = found.resolved;
                      deduplicated = length groups;
                      approved = out.1;
                      rejected = found.rejected ++ out.2;
                    },
                  ))
                  none)
              h,
        )
