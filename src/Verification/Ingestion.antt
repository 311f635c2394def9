-- ===== src/Verification/Ingestion.antt =====
-- Deduplicating ingestion, `VerificationIngestionService` of
-- platform/backend/app/verification/ingestion.py. `repo_identity` is `normalize_repo_identity`.
pub mod Dedupe
use Prim.Native.String.{◌++◌ as str_append}
use mathlib.Core.Option
use discovery_application.Base.{
  String, Bool, true, false, not, Option, none, some, List, [], ◌∷◌, find?, on_some, str_eq,
  if◌then◌else◌,
}
use discovery_application.Verification.Models.{McpServerRecord, ServerStatus}
use discovery_application.Verification.Registry.{
  Engine, Rows, get_by_source_url, get_by_registry_name, list_status, create, column_is,
}

pub record IngestionResult : Type 0 where
  pub stored : McpServerRecord
  pub created : Bool
  pub skipped_reason : Option String

-- The statuses whose repositories count as known.
abbrev pub known_statuses : List ServerStatus
known_statuses =
    ServerStatus.pending ∷ ServerStatus.review ∷ ServerStatus.retry_pending
    ∷ ServerStatus.partial_verified ∷ ServerStatus.oauth_pending_consent ∷ ServerStatus.verified
    ∷ []

abbrev skipped : McpServerRecord → String → Rows → IngestionResult × Rows
skipped existing reason rows =
    (record { stored = existing; created = false; skipped_reason = some reason }, rows)

-- A text that is neither None nor empty.
abbrev named : Option String → Option String
named none = none
named (some s) = if str_eq s "" then none else some s

module _ (db : Engine McpServerRecord) (repo_identity : Option String → Option String) where
  -- `if record.registry_name: …`.
  unfoldable pub same_name : McpServerRecord → Rows → Option McpServerRecord
  same_name r rows =
      on_some (named r.registry_name) (λ name. get_by_registry_name db name rows) none

  unfoldable pub same_repository : McpServerRecord → Rows → Option McpServerRecord
  same_repository r rows =
      on_some (named (repo_identity r.repository_url))
        (λ identity.
          find? (λ existing. column_is (repo_identity existing.repository_url) identity)
            (list_status db known_statuses 500 rows))
        none

  abbrev repository_reason : McpServerRecord → String
  repository_reason r =
      str_append "duplicate repo identity " (Option.get_or (repo_identity r.repository_url) "")

  unfoldable pub insert : McpServerRecord → Rows → IngestionResult × Rows
  insert r rows =
      let (stored, rows') = create db r rows in
      (record { stored = stored; created = true; skipped_reason = none }, rows')

  unfoldable pub ingest : McpServerRecord → Rows → IngestionResult × Rows
  unfolding insert
  ingest r rows =
      on_some (get_by_source_url db r.source_url rows)
        (λ existing. skipped existing "duplicate source_url" rows)
        (on_some (same_name r rows) (λ existing. skipped existing "duplicate registry_name" rows)
          (on_some (same_repository r rows)
            (λ existing. skipped existing (repository_reason r) rows) (insert r rows)))
