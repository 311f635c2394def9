-- ===== src/Catalog/Normalization.antt =====
-- From a candidate to items: `_normalize_candidate` and the functions under it in
-- platform/backend/app/normalization/pipeline.py. What the resolver of a deployment and the MCP
-- client answer are parameters; `uuid5` is of a text in the namespace of URLs.
-- Configuration files and source code of an item are left out.
pub mod Backed
use Prim.Native.String.{String, ◌++◌ as str_append}
use mathlib.Core.Option
use discovery_application.Base.{
  ℕ, ◌/◌, ◌*◌, Bool, true, false, not, ◌&&◌, ◌||◌, Option, none, some, List, [], ◌∷◌, ◌++◌, map,
  any, find?, is_nil, on_some, is_some, str_eq, is_empty, if◌then◌else◌, lower, strip, contains,
  join, decimal,
}
use discovery_application.Catalog.Models.{
  unevaluated, Item, ItemType, SourceType, Protocol, DiscoverySource, DiscoveryEvidence,
  CandidateReference, ToolMetadata, PackageEntry, SourceCandidate, source_type_value,
}
use discovery_application.Catalog.Identity.{SplitUrl, Normalized, canonical_identity, text_or}
use discovery_application.Verification.Prefilter.{
  PackageSizeEstimate, SizeLimits, known, over_limit, describe_size,
}

-- `CandidateRejected` and any other exception.
pub data Attempt (A : Type 0) : Type 0 where
  ok : A → Attempt A
  rejected : String → List String → Attempt A
  crashed : String → Attempt A

infixl 5 ◌>>=◌ ◌>>◌
abbrev pub ◌>>=◌ : {A B : Type 0} → Attempt A → (A → Attempt B) → Attempt B
ok a >>= f = f a
rejected reason evidence >>= f = rejected reason evidence
crashed message >>= f = crashed message

abbrev pub ◌>>◌ : {B : Type 0} → Attempt (Unit {0}) → Attempt B → Attempt B
m >> k = m >>= λ _. k

abbrev pub or_crash : {A : Type 0} → Option A → Attempt A
or_crash none = crashed "urlsplit"
or_crash (some a) = ok a

-- One entry of tools/list: none where it is no dict. A schema that is no dict is not valid.
pub record ToolEntry : Type 0 where
  pub tool_name : String
  pub description : String
  pub has_valid_schema : Bool

-- The tools are none where the answer has no list of them.
pub record Resolution : Type 0 where
  pub server_name : Option String
  pub server_version : Option String
  pub tools : Option (List (Option ToolEntry))

abbrev pub source_of : CandidateReference → DiscoverySource
source_of c = record {
  type = c.source_type;
  id = c.source_id;
  url = c.url;
  provider = some c.source_provider;
}

abbrev pub is_given : Option String → Bool
is_given o = not (is_empty (text_or o ""))

abbrev pub candidate_markers : List String
candidate_markers =
    "mcp server" ∷ "model context protocol" ∷ "tools/list" ∷ "tools/call" ∷ "mcp.server"
    ∷ "@mcp.tool" ∷ "agent card" ∷ "a2a agent" ∷ "agent2agent" ∷ "well-known" ∷ []

unfoldable pub has_explicit_protocol_evidence : CandidateReference → Bool
has_explicit_protocol_evidence c =
    let text = lower (join " " (c.title ∷ c.description ∷ c.evidence)) in
    not (is_empty text) && any (λ marker. contains text marker) candidate_markers

unfoldable pub can_accept_best_effort_mcp : CandidateReference → Bool
unfolding has_explicit_protocol_evidence
can_accept_best_effort_mcp c = elim c.item_type [
  | ItemType.agent ↦ false
  | ItemType.tool ↦ elim c.source_type [
    | SourceType.mcp_registry ↦ on_some c.source_candidate (λ raw. is_given raw.version) false
    | SourceType.github ↦ is_given c.repository_url && not (is_nil c.evidence)
    | SourceType.configured ↦ is_given c.repository_url && not (is_nil c.evidence)
    | SourceType.web_search ↦ has_explicit_protocol_evidence c
    | SourceType.web_page ↦ has_explicit_protocol_evidence c
    | _ ↦ false
  ]
]

abbrev pub candidate_version : CandidateReference → Option String
candidate_version c = on_some c.source_candidate (λ raw. raw.version) none

-- Either given text, or else the second.
abbrev pub or_else : Option String → Option String → Option String
or_else o other = if is_given o then o else other

module _ (uuid5 : String → String) (now : ℕ) where
  unfoldable pub new_evidence : CandidateReference → String → String → DiscoveryEvidence
  new_evidence c kind statement = record {
    evidence_id = uuid5 (
        join "|"
          (c.candidate_id ∷ source_type_value c.source_type ∷ c.source_id ∷ kind ∷ statement ∷ []));
    kind = kind;
    statement = statement;
    source = source_of c;
    observed_at = now;
  }

  unfoldable pub evidence_of : CandidateReference → String → List String → List DiscoveryEvidence
  unfolding new_evidence
  evidence_of c kind statements = map (new_evidence c kind) statements

  -- An item of the candidate, under an identity.
  unfoldable pub new_item :
      CandidateReference
      → String
      → ItemType
      → String
      → String
      → List DiscoveryEvidence
      → Option String
      → Option ToolMetadata
      → Item
  new_item c canonical type name description evidence version tool = record {
    item_id = uuid5 (str_append "phase10:" canonical);
    canonical_id = some canonical;
    type = type;
    name = name;
    description = description;
    source = source_of c;
    provenance = source_of c ∷ [];
    evidence = evidence;
    version = version;
    reliability = unevaluated;
    last_seen = now;
    tool = tool;
    artifacts_source_url = or_else c.repository_url c.url;
    embedding = none;
  }

  -- The item of a candidate whose server was not asked.
  unfoldable pub best_effort_item : CandidateReference → String → Item
  unfolding new_evidence evidence_of new_item
  best_effort_item c canonical =
      let title = if is_empty c.title then c.source_id else c.title in
      let given =
        if is_nil c.evidence
        then "live discovery result matched protocol keywords" ∷ []
        else c.evidence in
      let validated =
        new_evidence c "protocol_validation"
          "best-effort live candidate accepted from source-backed protocol evidence" in
      new_item c canonical c.item_type title c.description
        (evidence_of c "discovery" given ++ validated ∷ []) none
        (elim c.item_type [
          | ItemType.tool ↦ some (record { server_id = c.source_id; tool_name = title })
          | ItemType.agent ↦ none
        ])

  -- The item of one tool that a server lists.
  unfoldable pub described_tool : CandidateReference → Resolution → ToolEntry → String → Item
  unfolding new_evidence evidence_of new_item
  described_tool c resolution tool canonical =
      let validated = new_evidence c "protocol_validation" (
        str_append "MCP initialize and tools/list validated tool '"
          (str_append tool.tool_name "'")) in
      new_item c canonical ItemType.tool tool.tool_name
        (if is_empty tool.description then c.description else tool.description)
        (evidence_of c "discovery" c.evidence ++ validated ∷ [])
        (or_else resolution.server_version (candidate_version c))
        (some (record {
          server_id = text_or resolution.server_name c.source_id;
          tool_name = tool.tool_name;
        }))

  module _ (urlsplit : String → Option SplitUrl) (urlunsplit : String → String → String → String)
      (sha256 : String → String) where
    unfoldable pub best_effort_identity : CandidateReference → Option String
    best_effort_identity c = canonical_identity urlsplit urlunsplit sha256 c (record {
      server_id = none;
      version = none;
      tool_name = none;
      endpoint = none;
      agent_identity = none;
    })

    unfoldable pub best_effort_mcp_item : CandidateReference → Attempt Item
    unfolding best_effort_identity best_effort_item
    best_effort_mcp_item c =
        or_crash (best_effort_identity c) >>= λ canonical. ok (best_effort_item c canonical)

    unfoldable pub tool_identity : CandidateReference → Resolution → ToolEntry → Option String
    tool_identity c resolution tool = canonical_identity urlsplit urlunsplit sha256 c (record {
      server_id = some (text_or resolution.server_name c.source_id);
      version = or_else resolution.server_version (candidate_version c);
      tool_name = some tool.tool_name;
      endpoint = c.url;
      agent_identity = none;
    })

    unfoldable pub tool_item : CandidateReference → Resolution → ToolEntry → Attempt Item
    unfolding tool_identity described_tool
    tool_item c resolution tool =
        let message : String =
          str_append "MCP tool '" (str_append tool.tool_name "' has invalid input schema") in
        if tool.has_valid_schema
        then (or_crash (tool_identity c resolution tool) >>= λ canonical.
            ok (described_tool c resolution tool canonical))
        else rejected message (message ∷ [])

    unfoldable pub tool_items :
        CandidateReference → Resolution → List (Option ToolEntry) → Attempt (List Item)
    unfolding tool_item
    tool_items c resolution [] = ok []
    tool_items c resolution (none ∷ tools) = tool_items c resolution tools
    tool_items c resolution (some tool ∷ tools) =
        let rest = tool_items c resolution tools in
        let name = strip tool.tool_name in
        if is_empty name
        then rest
        else tool_item c resolution (record tool { tool_name = name }) >>= λ item.
            rest >>= λ items. ok (item ∷ items)
