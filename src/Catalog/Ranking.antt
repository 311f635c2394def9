-- ===== src/Catalog/Ranking.antt =====
-- The ranking of items for a query, platform/backend/app/query/ranking.py. Relevance, reliability,
-- freshness and evidence are in parts of ninety days in microseconds, which makes all of them exact
-- but the similarity of embeddings; a product with a weight is in hundredths of such a part, and a
-- final score in millionths. `strip_namespace` is strip_registry_namespace of the registry client, and
-- the similarity is a parameter with the embedding of a text and of an item; one below 0 counts as 0,
-- like the least lexical score.
pub mod Order
pub mod Shown
use Prim.Native.String.{String, [] as no_text, ◌∷◌ as ◌:∷◌, ◌++◌ as str_append}
use Prim.Native.Char.{Char, code}
use discovery_application.Base.{
  ℕ, zero, suc, ◌+◌, ◌-◌, ◌*◌, ◌/◌, min, max, Bool, true, false, not, ◌&&◌, ◌||◌, Option, none,
  some, List, [], ◌∷◌, ◌++◌, map, length, any, count, keep, is_nil, on_some, leb, ltb, ◌==◌, str_eq,
  is_empty, if◌then◌else◌, lower, contains, join, Dict, lookup, put, values, round_half_even,
  sort_desc,
}
use discovery_application.Catalog.Models.{
  Item, DiscoverySource, DiscoveryEvidence, source_type_value,
}
use discovery_application.Catalog.Reliability.{ninety_days}
use discovery_application.Catalog.Deduplication.{is_seen, unseen, source_key}

abbrev pub query_noise : List String
query_noise =
    "mcp" ∷ "model" ∷ "context" ∷ "protocol" ∷ "server" ∷ "servers" ∷ "tool" ∷ "tools" ∷ "agent"
    ∷ "agents" ∷ "the" ∷ "a" ∷ "an" ∷ "for" ∷ "with" ∷ []

-- In hundredths.
unfoldable pub source_priority : Item → ℕ
source_priority item = elim item.provenance [
  | [] ↦ 100
  | ◌∷◌ first others ↦
      let provider = on_some first.provider (λ p. p) "" in
      if str_eq provider "official_connectors"
      then 150
      else if str_eq provider "MCP Registry"
      then 125
      else 100
]

pub record RankingWeights : Type 0 where
  pub relevance : ℕ
  pub reliability : ℕ
  pub freshness : ℕ
  pub evidence : ℕ

abbrev pub default_weights : RankingWeights
default_weights = record { relevance = 45; reliability = 35; freshness = 10; evidence = 10 }

pub record RankedItem : Type 0 where
  pub item : Item
  pub final_score : ℕ
  pub relevance : ℕ
  pub reliability : ℕ
  pub freshness : ℕ
  pub evidence : ℕ
  pub source_priority : ℕ

abbrev pub is_word_char : Char → Bool
is_word_char c = leb b'a' (code c) && leb (code c) b'z' || leb b'0' (code c) && leb (code c) b'9'

-- `re.findall(r"[a-z0-9]+", s)`; `word` is what was read of the word that has begun.
unfoldable pub words_from : String → String → List String
words_from word no_text = if is_empty word then [] else word ∷ []
words_from word (c :∷ s) =
    let rest = words_from (if is_word_char c then str_append word (c :∷ no_text) else no_text) s in
    if not (is_word_char c) && not (is_empty word) then word ∷ rest else rest

unfoldable pub meaningful_query_terms : String → List String
unfolding words_from unseen
meaningful_query_terms query =
    unseen (λ token. token) []
      (keep (λ token. not (is_seen query_noise token)) (words_from "" (lower query)))

abbrev pub nonempty : List String → List String
nonempty parts = keep (λ part. not (is_empty part)) parts

-- One in a million, in parts of ninety days.
abbrev pub millionth : ℕ
millionth = 7776000

unfoldable pub freshness_score : ℕ → Item → ℕ
freshness_score now item = ninety_days - (now - item.last_seen)

abbrev pub evidence_key : DiscoveryEvidence → String
evidence_key e =
    join "|" (source_type_value e.source.type ∷ e.source.id ∷ e.kind ∷ e.statement ∷ [])

unfoldable pub evidence_score : Item → ℕ
unfolding unseen
evidence_score item =
    let keys =
      length (unseen evidence_key [] item.evidence)
      + length (unseen source_key [] item.provenance) in
    min ninety_days (keys * (ninety_days / 6))

module _ (strip_namespace : String → String) where
  -- The text in which the terms are looked for.
  unfoldable pub searched_text : Item → String
  searched_text item =
      let of_tool : List String =
        on_some item.tool (λ tool. tool.server_id ∷ tool.tool_name ∷ []) [] in
      lower (
        join " " (
          nonempty (
            (item.name ∷ item.description ∷ strip_namespace item.source.id ∷ of_tool)
            ++ map (λ source. strip_namespace source.id) item.provenance)))

  unfoldable pub identity_text : Item → String
  identity_text item = lower (
      join " " (
        nonempty (
          item.name
          ∷ strip_namespace item.source.id
          ∷ on_some item.tool (λ tool. tool.server_id) ""
          ∷ [])))

  unfoldable pub lexical_relevance : List String → Item → ℕ
  unfolding searched_text identity_text
  lexical_relevance query_terms item =
      let matched = count (λ term. contains (searched_text item) term) query_terms in
      let identity = identity_text item in
      if is_nil query_terms || matched == 0
      then 0
      else if contains identity (join " " query_terms) || contains identity (join "-" query_terms)
      then ninety_days
      else if matched == length query_terms
      then 900000 * millionth
      else round_half_even (matched * 500000) (length query_terms) * millionth

  abbrev pub is_strong : ℕ → Bool
  is_strong lexical = leb (900000 * millionth) lexical

  -- The scores by the identifier of an item.
  unfoldable pub lexical_scores : List String → List Item → Dict ℕ → Dict ℕ
  unfolding lexical_relevance
  lexical_scores query_terms [] scores = scores
  lexical_scores query_terms (item ∷ items) scores =
      lexical_scores query_terms items
        (put item.item_id (lexical_relevance query_terms item) scores)

-- In hundredths of a part.
unfoldable pub quality_score : RankingWeights → ℕ → ℕ → ℕ → ℕ → ℕ
quality_score weights relevance reliability freshness evidence =
    weights.relevance * relevance
    + weights.reliability * reliability
    + weights.freshness * freshness
    + weights.evidence * evidence

unfoldable pub official_registry_bonus : ℕ → ℕ → ℕ → ℕ
official_registry_bonus priority lexical quality =
    let earned = leb (ninety_days / 2) lexical && leb (60 * ninety_days) quality in
    if leb 150 priority && earned
    then 35 * ninety_days
    else if ltb 100 priority && earned
    then 15 * ninety_days
    else 0

module _ (embed_item : Item → String) (similarity : String → ℕ) (weights : RankingWeights)
    (now : ℕ) where
  -- The row of an item with a lexical score.
  unfoldable pub rank_item : ℕ → Item → RankedItem
  unfolding freshness_score evidence_score quality_score official_registry_bonus source_priority
  rank_item lexical item =
      let vector = on_some item.embedding (λ v. v) (embed_item item) in
      let relevance = max (similarity vector) lexical in
      let reliability = item.reliability.score * (ninety_days / 10000) in
      let freshness = freshness_score now item in
      let evidence = evidence_score item in
      let quality = quality_score weights relevance reliability freshness evidence in
      let bonus = official_registry_bonus (source_priority item) lexical quality in
      record {
        item = item;
        final_score = round_half_even (1000 * lexical + quality + bonus) (100 * millionth);
        relevance = round_half_even relevance millionth;
        reliability = round_half_even reliability millionth;
        freshness = round_half_even freshness millionth;
        evidence = round_half_even evidence millionth;
        source_priority = source_priority item;
      }

  abbrev pub score_in : Dict ℕ → Item → ℕ
  score_in scores item = on_some (lookup item.item_id scores) (λ s. s) 0

  -- A partial match is left out where there is a strong one.
  abbrev pub is_shown : Dict ℕ → Bool → Item → Bool
  is_shown scores has_strong_match item =
      let lexical = score_in scores item in
      not (has_strong_match && ltb 0 lexical && ltb lexical (900000 * millionth))

  unfoldable pub rank_items : (String → String) → String → List Item → List RankedItem
  unfolding rank_item lexical_scores meaningful_query_terms
  rank_items strip_namespace query items =
      let scores = lexical_scores strip_namespace (meaningful_query_terms query) items [] in
      let has_strong_match = any (is_strong strip_namespace) (values scores) in
      sort_desc (λ row. row.final_score)
        (map (λ item. rank_item (score_in scores item) item)
          (keep (is_shown scores has_strong_match) items))
