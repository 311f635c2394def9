-- ===== src/Catalog/Admission.antt =====
-- Which candidates become items: `_normalize_candidate`, `_normalize_mcp`,
-- `_reject_oversized_package` and `_resolve_mcp_with_existing_client` of
-- platform/backend/app/normalization/pipeline.py. What the resolver of a deployment, the MCP client
-- and the package registries answer are parameters.
pub mod Accepted
use Prim.Native.String.{String}
use discovery_application.Base.{
  ℕ, ◌/◌, ◌*◌, Bool, true, false, not, ◌&&◌, ◌||◌, Option, none, some, List, [], ◌∷◌, ◌++◌, find?,
  is_nil, on_some, is_empty, if◌then◌else◌, contains, str_eq, join, decimal,
}
use discovery_application.Catalog.Models.{Item, Protocol, CandidateReference, PackageEntry}
use discovery_application.Catalog.Identity.{SplitUrl, text_or}
use discovery_application.Catalog.Normalization.{
  Attempt, ok, rejected, crashed, ◌>>=◌, ◌>>◌, ToolEntry, Resolution, best_effort_mcp_item,
  tool_items, can_accept_best_effort_mcp,
}
use discovery_application.Verification.Prefilter.{
  PackageSizeEstimate, SizeLimits, known, over_limit, describe_size,
}

abbrev pub size_registry : PackageEntry → String
size_registry p =
    if str_eq p.registry_type "pypi" || contains p.runtime_hint "uvx" then "pypi" else "npm"

module _ (limits : SizeLimits) (estimate : String → String → Option PackageSizeEstimate) where
  -- Nothing is rejected where the size is not known or the estimate raised.
  unfoldable pub reject_oversized_package : CandidateReference → Attempt (Unit {0})
  reject_oversized_package c =
      let packages = on_some c.source_candidate (λ raw. raw.packages) [] in
      on_some (find? (λ p. not (is_empty p.identifier)) packages)
        (λ chosen.
          on_some (estimate (size_registry chosen) chosen.identifier)
            (λ e.
              if known e && over_limit limits e
              then rejected
                  "package exceeds the sandbox install-footprint limit and cannot be run or tested here"
                  (c.evidence
                    ++ join "" (
                        chosen.identifier
                        ∷ ": "
                        ∷ describe_size e
                        ∷ " (npm limit "
                        ∷ decimal (limits.npm_unpacked_size_limit_bytes / (1024 * 1024))
                        ∷ "MB, pypi limit "
                        ∷ decimal limits.pypi_dependency_limit
                        ∷ " dependencies)"
                        ∷ [])
                      ∷ [])
              else ok tt)
            (ok tt))
        (ok tt)

module _ (mcp_resolver : Option (CandidateReference → Attempt (Option Resolution)))
    (resolve_mcp_server : String → String → Attempt Resolution) where
  -- `_resolve_mcp_with_existing_client`: only a command that the source names is run.
  unfoldable pub resolve_with_client : CandidateReference → Attempt (Option Resolution)
  resolve_with_client c =
      let command = on_some c.source_candidate (λ raw. text_or raw.stdio_command "") "" in
      if is_empty command
      then ok none
      else resolve_mcp_server c.source_id command >>= λ r. ok (some r)

  unfoldable pub resolve : CandidateReference → Attempt (Option Resolution)
  unfolding resolve_with_client
  resolve c = on_some mcp_resolver (λ f. f c) (ok none) >>= λ answer.
      on_some answer (λ r. ok (some r)) (resolve_with_client c)

module _ (uuid5 : String → String) (now : ℕ) (urlsplit : String → Option SplitUrl)
    (urlunsplit : String → String → String → String) (sha256 : String → String) where
  -- The items of a server's tools.
  unfoldable pub listed_items : CandidateReference → Resolution → Attempt (List Item)
  unfolding tool_items
  listed_items c resolution =
      let no_usable : String = "MCP tools/list returned no usable tools" in
      let no_valid : String = "MCP tools/list contained no valid tool definitions" in
      if on_some resolution.tools is_nil true
      then rejected no_usable (no_usable ∷ [])
      else tool_items uuid5 now urlsplit urlunsplit sha256 c resolution
          (on_some resolution.tools (λ tools. tools) [])
        >>= λ items. if is_nil items then rejected no_valid (no_valid ∷ []) else ok items

  -- The item of a candidate without an answer.
  unfoldable pub unanswered_items : CandidateReference → Attempt (List Item)
  unfolding best_effort_mcp_item can_accept_best_effort_mcp
  unanswered_items c =
      if can_accept_best_effort_mcp c
      then (best_effort_mcp_item uuid5 now urlsplit urlunsplit sha256 c >>= λ item. ok (item ∷ []))
      else rejected
          "MCP candidate could not be protocol-validated; initialize/tools/list requires a resolvable stdio transport"
          (c.evidence ++ "MCP Registry metadata alone is not proof of an executable server" ∷ [])

  module _ (resolve_candidate : CandidateReference → Attempt (Option Resolution)) where
    unfoldable pub normalize_mcp : CandidateReference → Attempt (List Item)
    unfolding listed_items unanswered_items
    normalize_mcp c =
        resolve_candidate c >>= λ answer. on_some answer (listed_items c) (unanswered_items c)

    module _ (reject_oversized : CandidateReference → Attempt (Unit {0})) where
      unfoldable pub normalize_for : Protocol → CandidateReference → Attempt (List Item)
      unfolding normalize_mcp
      normalize_for Protocol.mcp c = reject_oversized c >> normalize_mcp c
      normalize_for Protocol.a2a c = rejected "unsupported protocol" ("protocol=a2a" ∷ [])
      normalize_for Protocol.unknown c = rejected "unsupported protocol" ("protocol=unknown" ∷ [])

      unfoldable pub normalize_candidate : CandidateReference → Attempt (List Item)
      unfolding normalize_for
      normalize_candidate c = normalize_for c.protocol c
