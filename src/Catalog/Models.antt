-- ===== src/Catalog/Models.antt =====
-- Items and candidates: platform/backend/app/models/item.py and discovery/common/candidate.py.
-- Identifiers, URLs and times are texts and microseconds; a score is in ten-thousandths. What a
-- candidate carries of its source, `raw_metadata["source_candidate"]`, is the record of the fields
-- that the normalization reads of it.
use discovery_application.Base.{ℕ, String, Option, none, List, []}

pub data ItemType : Type 0 where
  tool agent : ItemType

pub data SourceType : Type 0 where
  mcp_registry a2a_catalog well_known configured github web_search web_page : SourceType

abbrev pub item_type_value : ItemType → String
item_type_value ItemType.tool = "tool"
item_type_value ItemType.agent = "agent"

abbrev pub source_type_value : SourceType → String
source_type_value mcp_registry = "mcp_registry"
source_type_value a2a_catalog = "a2a_catalog"
source_type_value well_known = "well_known"
source_type_value configured = "configured"
source_type_value github = "github"
source_type_value web_search = "web_search"
source_type_value web_page = "web_page"

pub record DiscoverySource : Type 0 where
  pub type : SourceType
  pub id : String
  pub url : Option String
  pub provider : Option String

pub record DiscoveryEvidence : Type 0 where
  pub evidence_id : String
  pub kind : String
  pub statement : String
  pub source : DiscoverySource
  pub observed_at : ℕ

-- `protocol_validation`, `availability` and `source_quality` in hundredths, `provenance` in thirds,
-- `security_validation` in halves, `freshness` in parts of ninety days.
pub record Signals : Type 0 where
  pub protocol_validation : ℕ
  pub availability : ℕ
  pub provenance : ℕ
  pub source_quality : ℕ
  pub freshness : ℕ
  pub security_validation : ℕ

-- The signals are absent until the first evaluation.
pub record Reliability : Type 0 where
  pub score : ℕ
  pub confidence : ℕ
  pub scoring_version : String
  pub last_evaluated : Option ℕ
  pub security_validation : ℕ
  pub signals : Option Signals
  pub reasons : List String

-- `Reliability(score=0.0, confidence=0.0)`.
abbrev pub unevaluated : Reliability
unevaluated = record {
  score = 0;
  confidence = 0;
  scoring_version = "v1";
  last_evaluated = none;
  security_validation = 0;
  signals = none;
  reasons = [];
}

pub record ToolMetadata : Type 0 where
  pub server_id : String
  pub tool_name : String

pub record Item : Type 0 where
  pub item_id : String
  pub canonical_id : Option String
  pub type : ItemType
  pub name : String
  pub description : String
  pub source : DiscoverySource
  pub provenance : List DiscoverySource
  pub evidence : List DiscoveryEvidence
  pub version : Option String
  pub reliability : Reliability
  pub last_seen : ℕ
  pub tool : Option ToolMetadata
  pub artifacts_source_url : Option String
  pub embedding : Option String

pub data Protocol : Type 0 where
  mcp a2a unknown : Protocol

-- The fields of the source's own candidate that are read: its version, its packages' identifiers
-- with their registries and runtimes, and the command that starts it.
pub record PackageEntry : Type 0 where
  pub identifier : String
  pub registry_type : String
  pub runtime_hint : String

pub record SourceCandidate : Type 0 where
  pub version : Option String
  pub packages : List PackageEntry
  pub stdio_command : Option String

pub record CandidateReference : Type 0 where
  pub candidate_id : String
  pub protocol : Protocol
  pub item_type : ItemType
  pub source_type : SourceType
  pub source_provider : String
  pub source_id : String
  pub url : Option String
  pub repository_url : Option String
  pub title : String
  pub description : String
  pub evidence : List String
  pub source_candidate : Option SourceCandidate
