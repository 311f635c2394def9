-- ===== src/Catalog/Deduplication.antt =====
-- How the normalization groups items: `_deduplicate`, `_item_deduplication_key`, `_merge_sources` and
-- `_merge_evidence` of platform/backend/app/normalization/pipeline.py. `urlsplit` is of a URL that
-- was validated before, where it does not raise.
pub mod Groups
use Prim.Native.String.{count as len_chars, slice, ◌++◌ as str_append, String}
use discovery_application.Base.{
  ℕ, ◌-◌, Bool, true, false, Option, none, some, List, [], ◌∷◌, ◌++◌, any, ltb, on_some, str_eq,
  is_empty, if◌then◌else◌, lower, join, ends_with, Dict, lookup, put, values,
}
use discovery_application.Catalog.Models.{
  Item, DiscoverySource, DiscoveryEvidence, item_type_value, source_type_value,
}
use discovery_application.Catalog.Identity.{SplitUrl, strip_slash, text_or}

abbrev pub is_seen : List String → String → Bool
is_seen seen key = any (λ k. str_eq k key) seen

-- The elements whose key was not seen before.
module _ {A : Type 0} (key : A → String) where
  unfoldable pub unseen : List String → List A → List A
  unseen seen [] = []
  unseen seen (x ∷ xs) = elim (is_seen seen (key x)) [
    | true ↦ unseen seen xs
    | false ↦ x ∷ unseen (key x ∷ seen) xs
  ]

-- A missing URL or provider is shown as `None`.
abbrev pub shown : Option String → String
shown none = "None"
shown (some s) = s

abbrev pub source_key : DiscoverySource → String
source_key s = join "|" (source_type_value s.type ∷ s.id ∷ shown s.url ∷ shown s.provider ∷ [])

unfoldable pub merge_sources : List DiscoverySource → List DiscoverySource → List DiscoverySource
unfolding unseen
merge_sources left right = unseen source_key [] (left ++ right)

unfoldable pub merge_evidence :
    List DiscoveryEvidence → List DiscoveryEvidence → List DiscoveryEvidence
unfolding unseen
merge_evidence left right = unseen (λ e. e.evidence_id) [] (left ++ right)

-- `s.removesuffix(".git")`.
abbrev pub remove_git : String → String
remove_git s = if ends_with s ".git" then slice s 0 (len_chars s - 4) else s

module _ (urlsplit : String → SplitUrl) (urlunsplit : String → String → String → String) where
  unfoldable pub item_deduplication_key : Item → String
  item_deduplication_key item =
      let source_url = text_or item.artifacts_source_url "" in
      if is_empty source_url
      then text_or item.canonical_id item.item_id
      else (let parsed = urlsplit source_url in
          let repository =
            urlunsplit (lower parsed.scheme) (lower parsed.netloc)
              (remove_git (strip_slash parsed.path)) in
          let tool_name = on_some item.tool (λ t. lower t.tool_name) "" in
          join "|" ("repository" ∷ repository ∷ item_type_value item.type ∷ tool_name ∷ []))

-- What an item of the same key adds to the one that the group has.
unfoldable pub absorb : Item → Item → Item
unfolding merge_sources merge_evidence
absorb current item = record current {
  provenance = merge_sources current.provenance item.provenance;
  evidence = merge_evidence current.evidence item.evidence;
  description =
      if ltb (len_chars current.description) (len_chars item.description)
      then item.description
      else current.description;
}

module _ (key : Item → String) where
  unfoldable pub group_in : Item → Dict Item → Dict Item
  unfolding absorb
  group_in item groups =
      on_some (lookup (key item) groups) (λ current. put (key item) (absorb current item) groups)
        (put (key item) item groups)

  unfoldable pub group_each : List Item → Dict Item → Dict Item
  unfolding group_in
  group_each [] groups = groups
  group_each (item ∷ items) groups = group_each items (group_in item groups)

  unfoldable pub deduplicate : List Item → List Item
  unfolding group_each
  deduplicate items = values (group_each items [])
