-- ===== src/Catalog/Admission/Accepted.antt =====
-- What an accepted candidate gives.
use Prim.Native.String.{String}
use discovery_application.Base.{
  ℕ, ◌≡◌, refl, true, false, Option, List, [], ◌∷◌, All, is_nil, on_some, if_ind, on_some_ind,
  if◌then◌else◌,
}
use discovery_application.Catalog.Models.{Item, Protocol, CandidateReference}
use discovery_application.Catalog.Identity.{SplitUrl}
use discovery_application.Catalog.Normalization.{
  Attempt, ok, rejected, crashed, ◌>>◌, Resolution, tool_items, best_effort_mcp_item,
  can_accept_best_effort_mcp,
}
use discovery_application.Catalog.Normalization.Backed.{
  IsBacked, Ensures, >>=-Ensures, Ensures-ok, best_effort_mcp_item-IsBacked, tool_items-All,
}
use discovery_application.Catalog.Admission.{
  listed_items, unanswered_items, normalize_mcp, normalize_for, normalize_candidate,
}

-- A list of backed items that has one.
pub record AreBacked (c : CandidateReference) (items : List Item) : Type 0 where
  pub found : is_nil items ≡ false
  pub backed : All (IsBacked c) items

>>-eq-ok :
    {B : Type 0} (m : Attempt (Unit {0})) (k : Attempt B) (b : B)
    → (m >> k) ≡ ok b
    → (m ≡ ok tt) × (k ≡ ok b)
>>-eq-ok (ok tt) k b h = (refl, h)
>>-eq-ok (rejected reason evidence) k b h = cc
>>-eq-ok (crashed message) k b h = cc

module _ (uuid5 : String → String) (now : ℕ) (urlsplit : String → Option SplitUrl)
    (urlunsplit : String → String → String → String) (sha256 : String → String) where
  some_items :
      (c : CandidateReference) (items : List Item) (reason : String) (evidence : List String)
      → All (IsBacked c) items
      → Ensures (AreBacked c) (if is_nil items then rejected reason evidence else ok items)
  some_items c [] reason evidence h = tt
  some_items c (item ∷ items) reason evidence h = record { found = refl; backed = h }

  listed_items-AreBacked :
      (c : CandidateReference) (resolution : Resolution)
      → Ensures (AreBacked c) (listed_items uuid5 now urlsplit urlunsplit sha256 c resolution)
  unfolding listed_items
  listed_items-AreBacked c resolution =
      let tools = on_some resolution.tools (λ tools. tools) [] in
      let items = tool_items uuid5 now urlsplit urlunsplit sha256 c resolution tools in
      let backed = tool_items-All uuid5 now urlsplit urlunsplit sha256 c resolution tools in
      if_ind (Ensures (AreBacked c)) (on_some resolution.tools is_nil true) (λ _. tt)
        (λ _. >>=-Ensures (AreBacked c) items _ (λ found made.
          some_items c found _ _ (Ensures-ok (All (IsBacked c)) items found backed made)))

  unanswered_items-AreBacked :
      (c : CandidateReference)
      → Ensures (AreBacked c) (unanswered_items uuid5 now urlsplit urlunsplit sha256 c)
  unfolding unanswered_items
  unanswered_items-AreBacked c =
      let item = best_effort_mcp_item uuid5 now urlsplit urlunsplit sha256 c in
      let backed = best_effort_mcp_item-IsBacked uuid5 now urlsplit urlunsplit sha256 c in
      if_ind (Ensures (AreBacked c)) (can_accept_best_effort_mcp c)
        (λ _.
          >>=-Ensures (AreBacked c) item (λ i. ok (i ∷ []))
            (λ i made. record {
              found = refl;
              backed = (Ensures-ok (IsBacked c) item i backed made, tt);
            }))
        (λ _. tt)

  module _ (resolve_candidate : CandidateReference → Attempt (Option Resolution)) where
    normalize_mcp-AreBacked :
        (c : CandidateReference)
        → Ensures
            (AreBacked c)
            (normalize_mcp uuid5 now urlsplit urlunsplit sha256 resolve_candidate c)
    unfolding normalize_mcp
    normalize_mcp-AreBacked c =
        >>=-Ensures (AreBacked c) (resolve_candidate c)
          (λ answer.
            on_some answer (listed_items uuid5 now urlsplit urlunsplit sha256 c)
              (unanswered_items uuid5 now urlsplit urlunsplit sha256 c))
          (λ answer _.
            on_some_ind (Ensures (AreBacked c)) answer
              (λ resolution _. listed_items-AreBacked c resolution)
              (λ _. unanswered_items-AreBacked c))

    module _ (reject_oversized : CandidateReference → Attempt (Unit {0})) where
      normalize_for-AreBacked :
          (protocol : Protocol) (c : CandidateReference) (items : List Item)
          → normalize_for uuid5 now urlsplit urlunsplit sha256 resolve_candidate reject_oversized
              protocol c
            ≡ ok items
          → (protocol ≡ Protocol.mcp) × (reject_oversized c ≡ ok tt) × AreBacked c items
      unfolding normalize_for
      normalize_for-AreBacked Protocol.mcp c items h =
          let m = normalize_mcp uuid5 now urlsplit urlunsplit sha256 resolve_candidate c in
          let (checked, made) = >>-eq-ok (reject_oversized c) m items h in
          (refl, checked, Ensures-ok (AreBacked c) m items (normalize_mcp-AreBacked c) made)
      normalize_for-AreBacked Protocol.a2a c items h = cc
      normalize_for-AreBacked Protocol.unknown c items h = cc

      -- An accepted candidate speaks MCP and passed the check of its size, and gives at least one
      -- item; each has an identity, its source as provenance, and evidence.
      pub normalize_candidate-AreBacked :
          (c : CandidateReference) (items : List Item)
          → normalize_candidate uuid5 now urlsplit urlunsplit sha256 resolve_candidate
              reject_oversized c
            ≡ ok items
          → (c.protocol ≡ Protocol.mcp) × (reject_oversized c ≡ ok tt) × AreBacked c items
      unfolding normalize_candidate
      normalize_candidate-AreBacked c items = normalize_for-AreBacked c.protocol c items
