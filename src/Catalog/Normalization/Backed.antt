-- ===== src/Catalog/Normalization/Backed.antt =====
-- The items of a candidate name their source and have evidence.
use Prim.Native.String.{String}
use discovery_application.Base.{
  ℕ, ◌≡◌, ◌≢◌, refl, false, Option, none, some, List, [], ◌∷◌, ◌++◌, All, is_nil, is_empty, strip,
  if_ind,
}
use discovery_application.Catalog.Models.{
  Item, ItemType, CandidateReference, DiscoveryEvidence, ToolMetadata,
}
use discovery_application.Catalog.Identity.{SplitUrl}
use discovery_application.Catalog.Normalization.{
  Attempt, ok, rejected, crashed, ◌>>=◌, or_crash, ToolEntry, Resolution, source_of, new_item,
  best_effort_mcp_item, tool_item, tool_items, best_effort_item, best_effort_identity,
  tool_identity, described_tool,
}

-- An item that names its source as its provenance and has evidence.
pub record IsBacked (c : CandidateReference) (item : Item) : Type 0 where
  pub source : item.source ≡ source_of c
  pub provenance : item.provenance ≡ source_of c ∷ []
  pub evidence : is_nil item.evidence ≡ false
  pub identified : item.canonical_id ≢ none

is_nil-append : {A : Type 0} (xs : List A) (x : A) → is_nil (xs ++ x ∷ []) ≡ false
is_nil-append [] x = refl
is_nil-append (y ∷ xs) x = refl

-- What holds of a result, if there is one.
abbrev pub Ensures : {A : Type 0} → (A → Type 0) → Attempt A → Type 0
Ensures P (ok a) = P a
Ensures P (rejected reason evidence) = Unit {0}
Ensures P (crashed message) = Unit {0}

pub >>=-Ensures :
    {A B : Type 0} (P : B → Type 0) (m : Attempt A) (f : A → Attempt B)
    → ((a : A) → m ≡ ok a → Ensures P (f a))
    → Ensures P (m >>= f)
>>=-Ensures P (ok a) f h = h a refl
>>=-Ensures P (rejected reason evidence) f h = tt
>>=-Ensures P (crashed message) f h = tt

pub Ensures-ok :
    {A : Type 0} (P : A → Type 0) (m : Attempt A) (a : A) → Ensures P m → m ≡ ok a → P a
Ensures-ok P (ok b) a h e = let same : b ≡ a = cc in rw (← same) h
Ensures-ok P (rejected reason evidence) a h e = cc
Ensures-ok P (crashed message) a h e = cc

module _ (uuid5 : String → String) (now : ℕ) (urlsplit : String → Option SplitUrl)
    (urlunsplit : String → String → String → String) (sha256 : String → String) where
  new_item-IsBacked :
      (c : CandidateReference) (canonical : String) (type : ItemType) (name description : String)
      (given : List DiscoveryEvidence) (validated : DiscoveryEvidence) (version : Option String)
      (tool : Option ToolMetadata)
      → IsBacked c (
          new_item uuid5 now c canonical type name description
            (given ++ validated ∷ [])
            version
            tool)
  unfolding new_item
  new_item-IsBacked c canonical type name description given validated version tool = record {
    source = refl;
    provenance = refl;
    evidence = is_nil-append given validated;
    identified = λ e. cc e;
  }

  pub best_effort_mcp_item-IsBacked :
      (c : CandidateReference)
      → Ensures (IsBacked c) (best_effort_mcp_item uuid5 now urlsplit urlunsplit sha256 c)
  unfolding best_effort_mcp_item best_effort_item
  best_effort_mcp_item-IsBacked c =
      >>=-Ensures (IsBacked c)
        (or_crash (best_effort_identity uuid5 now urlsplit urlunsplit sha256 c))
        (λ canonical. ok (best_effort_item uuid5 now c canonical))
        (λ canonical _. new_item-IsBacked c canonical _ _ _ _ _ _ _)

  tool_item-IsBacked :
      (c : CandidateReference) (resolution : Resolution) (tool : ToolEntry)
      → Ensures (IsBacked c) (tool_item uuid5 now urlsplit urlunsplit sha256 c resolution tool)
  unfolding tool_item described_tool
  tool_item-IsBacked c resolution tool =
      if_ind (Ensures (IsBacked c)) tool.has_valid_schema
        (λ _.
          >>=-Ensures (IsBacked c)
            (or_crash (tool_identity uuid5 now urlsplit urlunsplit sha256 c resolution tool))
            (λ canonical. ok (described_tool uuid5 now c resolution tool canonical))
            (λ canonical _. new_item-IsBacked c canonical _ _ _ _ _ _ _))
        (λ _. tt)

  pub tool_items-All :
      (c : CandidateReference) (resolution : Resolution) (tools : List (Option ToolEntry))
      → Ensures
          (All (IsBacked c))
          (tool_items uuid5 now urlsplit urlunsplit sha256 c resolution tools)
  unfolding tool_items
  tool_items-All c resolution [] = tt
  tool_items-All c resolution (none ∷ tools) = tool_items-All c resolution tools
  tool_items-All c resolution (some tool ∷ tools) =
      let rest = tool_items uuid5 now urlsplit urlunsplit sha256 c resolution tools in
      let rest_All = tool_items-All c resolution tools in
      let named : ToolEntry = record tool { tool_name = strip tool.tool_name } in
      let first = tool_item uuid5 now urlsplit urlunsplit sha256 c resolution named in
      if_ind (Ensures (All (IsBacked c))) (is_empty (strip tool.tool_name)) (λ _. rest_All)
        (λ _.
          >>=-Ensures (All (IsBacked c)) first (λ item. rest >>= λ items. ok (item ∷ items))
            (λ item made.
              >>=-Ensures (All (IsBacked c)) rest (λ items. ok (item ∷ items))
                (λ items others. (
                  Ensures-ok (IsBacked c) first item (tool_item-IsBacked c resolution named) made,
                  Ensures-ok (All (IsBacked c)) rest items rest_All others,
                ))))
