-- ===== src/Verification/Registry.antt =====
-- The McpServer table, `VerificationRepository` of
-- platform/backend/app/verification/repository.py. The state is the list of the rows; each query
-- text is a condition on a row and a limit. Which rows a SELECT with a limit returns, and in what
-- order, is the database's, so it is a parameter.
pub mod Distinct
pub mod InOrder
use discovery_application.Base.{
  take, keep, ℕ, ◌<◌, ◌≤◌, ◌≡◌, String, Bool, true, false, ◌&&◌, Option, none, some, List, [], ◌∷◌,
  ◌++◌, map, length, All, In, ltb, str_eq, if◌then◌else◌,
}
use discovery_application.Verification.Models.{
  McpServerRecord, ServerStatus, status_in, is_verified, status_index,
}

pub record Engine (R : Type 0) : Type 0 where
  pub select : (R → Bool) → ℕ → List R → List R

-- What a SELECT promises: rows of the table that meet the condition, no more than the limit, and
-- all of them if there are fewer than the limit.
pub record IsEngine {R : Type 0} (db : Engine R) : Type 0 where
  pub sound :
      (p : R → Bool) (n : ℕ) (rows : List R)
      → All (λ r. (p r ≡ true) × In r rows) (db.select p n rows)
  pub limited : (p : R → Bool) (n : ℕ) (rows : List R) → length (db.select p n rows) ≤ n
  pub complete :
      (p : R → Bool) (n : ℕ) (rows : List R)
      → length (db.select p n rows) < n
      → (r : R) → In r rows
      → p r ≡ true
      → In r (db.select p n rows)

-- A database that scans the rows in order.
abbrev pub in_order : {R : Type 0} → Engine R
in_order = record { select = λ p n rows. take n (keep p rows) }

abbrev pub first {ℓ} : {A : Type ℓ} → List A → Option A
first [] = none
first (x ∷ xs) = some x

-- `column = :value` on a column that may be null.
abbrev pub column_is : Option String → String → Bool
column_is none value = false
column_is (some s) value = str_eq s value

-- `ttl_expires_at IS NOT NULL AND ttl_expires_at < :now`.
abbrev pub has_expired : ℕ → Option ℕ → Bool
has_expired now none = false
has_expired now (some t) = ltb t now

abbrev pub Rows : Type 0
Rows = List McpServerRecord

module _ (db : Engine McpServerRecord) where
  unfoldable pub get : String → Rows → Option McpServerRecord
  get server_id rows = first (db.select (λ r. str_eq r.server_id server_id) 1 rows)

  unfoldable pub get_by_source_url : String → Rows → Option McpServerRecord
  get_by_source_url source_url rows = first (db.select (λ r. str_eq r.source_url source_url) 1 rows)

  unfoldable pub get_by_registry_name : String → Rows → Option McpServerRecord
  get_by_registry_name name rows = first (db.select (λ r. column_is r.registry_name name) 1 rows)

  unfoldable pub list_status : List ServerStatus → ℕ → Rows → List McpServerRecord
  list_status statuses limit rows = db.select (λ r. status_in statuses r.status) limit rows

  unfoldable pub list_expired_ttl : ℕ → ℕ → Rows → List McpServerRecord
  list_expired_ttl now limit rows =
      db.select (λ r. is_verified r.status && has_expired now r.ttl_expires_at) limit rows

  unfoldable pub list_by_provider : String → Rows → List McpServerRecord
  list_by_provider provider rows = db.select (λ r. column_is r.oauth_provider provider) 200 rows

  -- `create`: the stored row, and the table.
  unfoldable pub create : McpServerRecord → Rows → McpServerRecord × Rows
  create r rows = elim (get_by_source_url r.source_url rows) [
    | some existing ↦ (existing, rows)
    | none ↦ (r, rows ++ r ∷ [])
  ]

-- `UPDATE McpServer SET … WHERE server_id = :server_id`.
unfoldable pub update : String → (McpServerRecord → McpServerRecord) → Rows → Rows
update server_id change rows = map (λ r. if str_eq r.server_id server_id then change r else r) rows

-- `cascade_provider_reauth` of verifiers.py: the rows of a provider that lost its authorization.
unfoldable pub reauth_each : List McpServerRecord → Rows → Rows
reauth_each [] rows = rows
reauth_each (server ∷ rest) rows =
    reauth_each rest
      (update server.server_id (λ r. record r { status = ServerStatus.reauth_required }) rows)

unfoldable pub cascade_provider_reauth : Engine McpServerRecord → String → Rows → ℕ × Rows
unfolding reauth_each
cascade_provider_reauth db provider rows =
    let servers = list_by_provider db provider rows in (length servers, reauth_each servers rows)
