-- ===== src/Tests/Registry.antt =====
-- The table, its ingestion and concrete rows.
use discovery_application.Base.{
  ◌≡◌, ◌≢◌, String, refl, some, Option, [], ◌∷◌, ◌++◌, arith, str_eq_iff,
}
use discovery_application.Verification.Models.{McpServerRecord}
use discovery_application.Verification.Registry.{
  Rows, in_order, get_by_source_url, get_by_registry_name, create, list_status,
}
use discovery_application.Verification.Registry.InOrder.{in_order-IsEngine}
use discovery_application.Verification.Registry.Distinct.{IsDistinct}
use discovery_application.Verification.Ingestion.{ingest, insert, same_name, same_repository}
use discovery_application.Verification.Ingestion.Dedupe
use discovery_application.Tests.Samples.{server}

abbrev own_url : Option String → Option String
own_url url = url

abbrev mirrored : String → McpServerRecord
mirrored id = record (server id) { repository_url = some "acme/tool" }

abbrev table : Rows
table = mirrored "a" ∷ server "b" ∷ []

ingestions :
    ((ingest in_order own_url (server "b") table).0.skipped_reason ≡ some "duplicate source_url")
    × ((ingest in_order own_url (mirrored "c") table).0.skipped_reason
        ≡ some "duplicate repo identity acme/tool")
    × ((ingest in_order own_url (server "c") table).1 ≡ table ++ server "c" ∷ [])
unfolding ingest insert same_name same_repository get_by_source_url get_by_registry_name create
    list_status
ingestions = (refl, refl, refl)

a_not_b : ◌≢◌ {A = String} "b" "a"
a_not_b = ground (arith, str_eq_iff "b" "a")

table-IsDistinct : IsDistinct table
table-IsDistinct = ((a_not_b, tt), (tt, tt))

ingest-IsDistinct_example : IsDistinct (ingest in_order own_url (server "c") table).1
ingest-IsDistinct_example =
    Dedupe.ingest-IsDistinct in_order-IsEngine own_url (server "c") table table-IsDistinct
