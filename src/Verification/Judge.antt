-- ===== src/Verification/Judge.antt =====
-- The semantic judge, platform/backend/app/verification/semantic_judge.py. A result of a tool is a
-- JSON value, in which a number or a Boolean is its text; `json.dumps` and what the language model
-- answers are parameters. A confidence is in hundredths.
pub mod Heuristic
use Prim.Native.String.{count as len_chars, ◌++◌ as str_append}
use discovery_application.Base.{
  ℕ, zero, suc, String, Bool, true, false, ◌&&◌, Option, none, some, List, [], ◌∷◌, find?, is_nil,
  ltb, map, on_some, if◌then◌else◌, str_eq, lower, strip, is_empty, contains, join, take_chars,
}

mutual
  pub data Json : Type 0 where
    null : Json
    text scalar : String → Json
    array : Items → Json
    object : Fields → Json

  pub data Items : Type 0 where
    no_items : Items
    item : Json → Items → Items

  pub data Fields : Type 0 where
    no_fields : Fields
    field : String → Json → Fields → Fields

-- The first `n` items, and the value under a key.
abbrev pub take_items : ℕ → Items → List Json
take_items zero js = []
take_items (suc n) no_items = []
take_items (suc n) (item j js) = j ∷ take_items n js

abbrev pub get_field : String → Fields → Option Json
get_field key no_fields = none
get_field key (field k j fs) = if str_eq key k then some j else get_field key fs

abbrev pub present : List String → Fields → List Json
present [] fs = []
present (key ∷ keys) fs =
    let rest = present keys fs in on_some (get_field key fs) (λ j. j ∷ rest) rest

-- `"text" in output and isinstance(output["text"], str)`.
abbrev pub text_field : Fields → Option String
text_field fs = elim (get_field "text" fs) [ some (Json.text s) ↦ some s | _ ↦ none ]

abbrev pub block_keys : List String
block_keys = "content" ∷ "result" ∷ "data" ∷ "message" ∷ "output" ∷ "items" ∷ []

pub record SemanticVerdict : Type 0 where
  pub tool_name : String
  pub valid : Bool
  pub confidence : ℕ
  pub reason : String
  pub judged_by : String

abbrev pub placeholder_markers : List String
placeholder_markers =
    "placeholder" ∷ "not implemented" ∷ "todo" ∷ "coming soon" ∷ "lorem ipsum" ∷ "example response"
    ∷ "stub" ∷ "mock response" ∷ "dummy" ∷ "sample data only" ∷ "hello world" ∷ []

abbrev pub error_markers : List String
error_markers =
    "unauthorized" ∷ "forbidden" ∷ "invalid api key" ∷ "missing api key" ∷ "authentication required"
    ∷ "quota exceeded" ∷ "rate limit" ∷ "internal server error"
    ∷ "traceback (most recent call last)" ∷ "exception" ∷ []

abbrev pub quoted : String → String → String
quoted front marker = str_append front (str_append "'" (str_append marker "'"))

module _ (dumps : Fields → String) where
  -- `_extract_text` with `levels` levels of nesting left: seven at first.
  unfoldable pub extract_text : ℕ → Json → String
  extract_text zero output = ""
  extract_text (suc levels) null = ""
  extract_text (suc levels) (Json.text s) = s
  extract_text (suc levels) (scalar s) = s
  extract_text (suc levels) (array js) = join "\n" (map (extract_text levels) (take_items 20 js))
  extract_text (suc levels) (object fs) =
      let parts = map (extract_text levels) (present block_keys fs) in
      on_some (text_field fs) (λ s. s)
        (if is_nil parts then take_chars 2000 (dumps fs) else join "\n" parts)

  abbrev pub judged : String → Bool → ℕ → String → SemanticVerdict
  judged tool_name valid confidence reason = record {
    tool_name = tool_name;
    valid = valid;
    confidence = confidence;
    reason = reason;
    judged_by = "heuristic";
  }

  unfoldable pub heuristic_judge : String → Json → SemanticVerdict
  unfolding extract_text
  heuristic_judge tool_name output =
      let shown = strip (extract_text 7 output) in
      let lowered = lower shown in
      if is_empty shown
      then judged tool_name false 90 "empty response payload"
      else on_some
          (find? (λ marker. contains lowered marker && ltb (len_chars lowered) 2000) error_markers)
          (λ marker.
            judged tool_name false 80
              (quoted "response looks like a disguised error: contains " marker))
          (on_some (find? (λ marker. contains lowered marker) placeholder_markers)
            (λ marker.
              judged tool_name false 70
                (quoted "response looks like a stub/placeholder: contains " marker))
            (judged tool_name true 50 "no placeholder/error markers found (heuristic)"))

  -- `LLMSemanticJudge.judge`: `asked` is the verdict made of the model's answer, or none where the
  -- call or the reading of its answer raised.
  unfoldable pub llm_judge : String → String → Option SemanticVerdict → Json → SemanticVerdict
  unfolding heuristic_judge
  llm_judge api_key tool_name asked output =
      if is_empty api_key
      then heuristic_judge tool_name output
      else on_some asked (λ verdict. verdict) (heuristic_judge tool_name output)
