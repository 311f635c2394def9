-- ===== src/Catalog/Phase10.antt =====
-- The pipeline from candidates to the catalog: `Phase10Pipeline.process` of
-- platform/backend/app/normalization/pipeline.py, over any normalization of a candidate and any key
-- of an item. `upsert_catalog_item` is the repository's, nothing where it raises; `embed_item` is the
-- embedding model's.
pub mod Accounts
pub mod Returns
use discovery_application.Base.{
  ℕ, ◌+◌, String, Bool, true, false, not, ◌&&◌, Option, none, some, List, [], ◌∷◌, ◌++◌, map, any,
  length, on_some, is_empty, if◌then◌else◌, lower, contains, join,
}
use discovery_application.Catalog.Models.{
  Item, DiscoverySource, CandidateReference, Protocol, item_type_value,
}
use discovery_application.Catalog.Reliability.{
  SourceUrl, ReliabilityEvaluationResult, evaluate, apply_evaluation,
}
use discovery_application.Catalog.Normalization.{Attempt, ok, rejected, crashed, source_of}
use discovery_application.Catalog.Deduplication.{deduplicate}

pub record Rejection : Type 0 where
  pub candidate_id : String
  pub protocol : String
  pub source : DiscoverySource
  pub reason : String
  pub evidence : List String
  pub item_id : Option String

pub record Phase10Result : Type 0 where
  pub candidates_seen : ℕ
  pub resolved : ℕ
  pub deduplicated : ℕ
  pub approved : List Item
  pub rejected : List Rejection

abbrev pub protocol_value : Protocol → String
protocol_value Protocol.mcp = "mcp"
protocol_value Protocol.a2a = "a2a"
protocol_value Protocol.unknown = "unknown"

abbrev pub from_candidate : CandidateReference → String → List String → Rejection
from_candidate c reason evidence = record {
  candidate_id = c.candidate_id;
  protocol = protocol_value c.protocol;
  source = source_of c;
  reason = reason;
  evidence = evidence;
  item_id = none;
}

abbrev pub from_item : Item → String → List String → Rejection
from_item item reason evidence = record {
  candidate_id = item.item_id;
  protocol = item_type_value item.type;
  source = item.source;
  reason = reason;
  evidence = evidence;
  item_id = some item.item_id;
}

abbrev pub item_markers : List String
item_markers =
    "mcp server" ∷ "model context protocol" ∷ "mcp" ∷ "agent card" ∷ "a2a agent" ∷ "agent2agent"
    ∷ "a2a" ∷ "tools/list" ∷ "tools/call" ∷ "well-known" ∷ []

-- `_candidate_has_explicit_protocol_evidence`.
unfoldable pub item_has_protocol_evidence : Item → Bool
item_has_protocol_evidence item =
    let text = join " " (map (λ e. lower e.statement) item.evidence) in
    not (is_empty text) && any (λ marker. contains text marker) item_markers

-- The variables of the first loop.
pub record Collected : Type 0 where
  pub approved : List Item
  pub rejected : List Rejection
  pub resolved : ℕ

module _ (normalize : CandidateReference → Attempt (List Item)) where
  -- The first loop: the evidence of an empty rejection is its reason.
  unfoldable pub collect_items : List CandidateReference → Collected
  collect_items [] = record { approved = []; rejected = []; resolved = 0 }
  collect_items (c ∷ cs) =
      let rest = collect_items cs in
      elim (normalize c) [
        | ok items ↦ record rest { approved = items ++ rest.approved; resolved = rest.resolved + 1 }
        | rejected reason evidence ↦ record rest {
          rejected = from_candidate c reason evidence ∷ rest.rejected;
        }
        | crashed message ↦ record rest {
          rejected =
              from_candidate c "unexpected normalization/resolution failure" (message ∷ [])
              ∷ rest.rejected;
        }
      ]

module _ {Db : Type 0} (urlparse : String → SourceUrl) (threshold now : ℕ)
    (embed_item : Item → String)
    (upsert_catalog_item : Item → ReliabilityEvaluationResult → Db → Option Db) where
  abbrev pub evaluation_of : Item → ReliabilityEvaluationResult
  evaluation_of item = evaluate urlparse threshold now item (item_has_protocol_evidence item) true

  -- An evaluated item with its embedding.
  unfoldable pub ready : Item → Item
  unfolding apply_evaluation evaluate
  ready item =
      let scored = apply_evaluation now item (evaluation_of item) in
      record scored { embedding = some (on_some item.embedding (λ e. e) (embed_item scored)) }

  abbrev pub below_threshold : Item → Rejection
  below_threshold item =
      from_item item "reliability score below approval threshold" (evaluation_of item).reasons

  -- One group, approved or not, and then the rest; nothing where the repository raises.
  unfoldable pub store_or_refuse :
      Bool
      → Item
      → (Db → Option (Db × List Item × List Rejection))
      → Db
      → Option (Db × List Item × List Rejection)
  unfolding ready
  store_or_refuse true item go_on db =
      on_some (upsert_catalog_item (ready item) (evaluation_of item) db)
        (λ db'. on_some (go_on db') (λ rest. some (rest.0, ready item ∷ rest.1, rest.2)) none) none
  store_or_refuse false item go_on db =
      on_some (go_on db) (λ rest. some (rest.0, rest.1, below_threshold item ∷ rest.2)) none

  -- The second loop.
  unfoldable pub persist : List Item → Db → Option (Db × List Item × List Rejection)
  unfolding store_or_refuse
  persist [] db = some (db, [], [])
  persist (item ∷ items) db = store_or_refuse (evaluation_of item).approved item (persist items) db

  module _ (normalize : CandidateReference → Attempt (List Item)) (key : Item → String) where
    unfoldable pub process : List CandidateReference → Db → Option (Db × Phase10Result)
    unfolding collect_items persist deduplicate
    process candidates db =
        let found = collect_items normalize candidates in
        let groups = deduplicate key found.approved in
        on_some (persist groups db)
          (λ out. some (
            out.0,
            record {
              candidates_seen = length candidates;
              resolved = found.resolved;
              deduplicated = length groups;
              approved = out.1;
              rejected = found.rejected ++ out.2;
            },
          ))
          none
