-- ===== src/Verification/Ingestion/Dedupe.antt =====
-- What ingestion leaves in the table.
use discovery_application.Base.{
  ◌≡◌, ◌≢◌, ◌⊎◌, inl, inr, refl, String, true, false, Option, none, [], ◌∷◌, ◌++◌, All, on_some_ind,
}
use discovery_application.Verification.Models.{McpServerRecord}
use discovery_application.Verification.Registry.{Engine, IsEngine, Rows, get_by_source_url}
use discovery_application.Verification.Registry.Distinct.{
  IsDistinct, IsDistinct-append, create_miss, Differs_of_miss,
}
use discovery_application.Verification.Ingestion.{
  IngestionResult, ingest, insert, same_name, same_repository,
}

-- The table after an ingestion, by whether a row was made.
abbrev IsOutcome : McpServerRecord → Rows → IngestionResult × Rows → Type 0
IsOutcome r rows (result, rows') =
    ((result.created ≡ false) × (rows' ≡ rows))
    ⊎ ((result.created ≡ true)
        × (rows' ≡ rows ++ r ∷ [])
        × (result.stored ≡ r)
        × All (λ s. s.source_url ≢ r.source_url) rows)

module _ {db : Engine McpServerRecord} (law : IsEngine db)
    (repo_identity : Option String → Option String) where
  insert-IsOutcome :
      (r : McpServerRecord) (rows : Rows)
      → get_by_source_url db r.source_url rows ≡ none
      → IsOutcome r rows (insert db repo_identity r rows)
  unfolding insert
  insert-IsOutcome r rows miss =
      rw (create_miss law r rows miss)
        (inr (refl, refl, refl, Differs_of_miss law r.source_url rows miss))

  -- Ingestion either skips a known server and leaves the table as it was, or appends the very
  -- record that it was given, whose URL no row has.
  pub ingest-IsOutcome :
      (r : McpServerRecord) (rows : Rows)
      → (((ingest db repo_identity r rows).0.created ≡ false)
          × ((ingest db repo_identity r rows).1 ≡ rows))
        ⊎ (((ingest db repo_identity r rows).0.created ≡ true)
            × ((ingest db repo_identity r rows).1 ≡ rows ++ r ∷ [])
            × ((ingest db repo_identity r rows).0.stored ≡ r)
            × All (λ s. s.source_url ≢ r.source_url) rows)
  unfolding ingest
  ingest-IsOutcome r rows =
      on_some_ind (IsOutcome r rows) (get_by_source_url db r.source_url rows)
        (λ existing e. inl (refl, refl))
        λ miss.
          on_some_ind (IsOutcome r rows) (same_name db repo_identity r rows)
            (λ existing e. inl (refl, refl))
            λ new.
              on_some_ind (IsOutcome r rows) (same_repository db repo_identity r rows)
                (λ existing e. inl (refl, refl)) (λ other. insert-IsOutcome r rows miss)

  -- Ingestion keeps the source URLs distinct.
  pub ingest-IsDistinct :
      (r : McpServerRecord) (rows : Rows)
      → IsDistinct rows
      → IsDistinct (ingest db repo_identity r rows).1
  ingest-IsDistinct r rows d = elim (ingest-IsOutcome r rows) [
    | inl (_, same) ↦ rw same d
    | inr (_, grown, _, new) ↦ rw grown (IsDistinct-append rows r d new)
  ]
