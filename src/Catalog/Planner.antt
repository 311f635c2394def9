-- ===== src/Catalog/Planner.antt =====
-- The query planner, platform/backend/app/query/planner.py. What the language model answers is a
-- parameter: the fields of its JSON object, or nothing where the request or the reading of it raises.
pub mod Clean
use Prim.Native.String.{String, [] as no_text, ◌∷◌ as ◌:∷◌, ◌++◌ as str_append, count as len_chars}
use Prim.Native.Char.{Char, code}
use discovery_application.Base.{
  ℕ, Bool, true, false, not, ◌&&◌, ◌||◌, Option, none, some, List, [], ◌∷◌, ◌++◌, map, keep, take,
  any, on_some, leb, ◌==◌, is_empty, if◌then◌else◌, lower, strip, contains,
}
use discovery_application.Catalog.Deduplication.{is_seen, unseen}

pub data PreferredType : Type 0 where
  tool agent all_types : PreferredType

pub record QueryPlan : Type 0 where
  pub keywords : List String
  pub preferred_type : PreferredType
  pub expanded_query : String
  pub source_hints : List String
  pub used_fallback : Bool

unfoldable pub clean_short_strings : List String → List String
unfolding unseen
clean_short_strings strings =
    take 20 (unseen (λ s. s) [] (keep (λ s. not (is_empty s)) (map (λ s. lower (strip s)) strings)))

-- The model's validators; nothing where one raises.
unfoldable pub validated : QueryPlan → Option QueryPlan
unfolding clean_short_strings
validated plan =
    let cleaned = strip plan.expanded_query in
    if is_empty cleaned
    then none
    else some (record plan {
      keywords = clean_short_strings plan.keywords;
      expanded_query = cleaned;
      source_hints = clean_short_strings plan.source_hints;
    })

abbrev pub is_start_char : Char → Bool
is_start_char c =
    leb b'a' (code c) && leb (code c) b'z'
    || leb b'A' (code c) && leb (code c) b'Z'
    || leb b'0' (code c) && leb (code c) b'9'

abbrev pub is_token_char : Char → Bool
is_token_char c = is_start_char c || code c == b'_' || code c == b'-'

abbrev pub is_token : String → Bool
is_token word = leb 2 (len_chars word)

-- `findall` of `[a-zA-Z0-9][a-zA-Z0-9_-]{1,}`; `word` is what was read of the token that has begun.
unfoldable pub tokens_from : String → String → List String
tokens_from word no_text = if is_token word then word ∷ [] else []
tokens_from word (c :∷ s) =
    let goes_on = if is_empty word then is_start_char c else is_token_char c in
    let rest = tokens_from (if goes_on then str_append word (c :∷ no_text) else no_text) s in
    if not goes_on && is_token word then word ∷ rest else rest

abbrev pub stopwords : List String
stopwords =
    "and" ∷ "are" ∷ "for" ∷ "from" ∷ "into" ∷ "need" ∷ "that" ∷ "the" ∷ "this" ∷ "with" ∷ "tool"
    ∷ "tools" ∷ "agent" ∷ "agents" ∷ []

abbrev pub mentions : String → List String → Bool
mentions s terms = any (λ term. contains s term) terms

unfoldable pub inferred_type : String → PreferredType
inferred_type lowered =
    let of_tool = mentions lowered ("tool" ∷ "mcp" ∷ "server" ∷ []) in
    if mentions lowered ("agent" ∷ "a2a" ∷ "assistant" ∷ [])
    then if of_tool then all_types else agent
    else if of_tool
    then tool
    else all_types

abbrev pub hint : Bool → String → List String
hint b s = if b then s ∷ [] else []

-- The plan of a stripped query before its validation.
unfoldable pub fallback_draft : String → Option PreferredType → QueryPlan
unfolding tokens_from inferred_type
fallback_draft query preferred_type =
    let lowered = lower query in
    record {
      keywords = keep (λ token. not (is_seen stopwords token)) (tokens_from "" lowered);
      preferred_type = on_some preferred_type (λ t. t) (inferred_type lowered);
      expanded_query = query;
      source_hints =
          hint (contains lowered "github") "github"
          ++ hint (contains lowered "registry") "registry"
          ++ hint (contains lowered "well-known" || contains lowered "agent-card") "well_known";
      used_fallback = true;
    }

-- `FallbackQueryPlanner.plan`.
unfoldable pub fallback_plan : String → Option PreferredType → Option QueryPlan
unfolding validated fallback_draft
fallback_plan raw_query preferred_type =
    let query = strip raw_query in
    if is_empty query then none else validated (fallback_draft query preferred_type)

module _ (gemini_api_key : String) (gemini : String → Option QueryPlan) where
  -- `GeminiQueryPlanner.plan`.
  unfoldable pub gemini_plan : String → Option QueryPlan
  unfolding validated
  gemini_plan raw_query =
      let query = strip raw_query in
      if is_empty gemini_api_key || is_empty query
      then none
      else on_some (gemini query) validated none

  unfoldable pub plan_query : String → Option PreferredType → Option QueryPlan
  unfolding gemini_plan fallback_plan
  plan_query raw_query preferred_type =
      on_some (gemini_plan raw_query)
        (λ plan.
          some
            (record plan { preferred_type = on_some preferred_type (λ t. t) plan.preferred_type }))
        (fallback_plan raw_query preferred_type)
