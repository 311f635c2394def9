-- ===== src/Sandbox/AuthSignals.antt =====
-- Authorization failures inside the result of a tool: platform/backend/app/sandbox/auth_signals.py.
-- A payload is a JSON value; `loads` is `json.loads`, nothing where it raises.
pub mod Found
use Prim.Native.String.{count as len_chars}
use package.text.Mathlib.Text.{starts_with}
use discovery_application.Base.{
  ℕ, zero, suc, String, Bool, true, false, not, ◌&&◌, ◌||◌, Option, none, some, List, [], ◌∷◌, any,
  ltb, on_some, str_eq, is_empty, if◌then◌else◌, lower, strip, take_chars,
}
use discovery_application.Verification.Judge.{
  Json, null, text, scalar, array, object, Items, no_items, item, Fields, no_fields, field,
  get_field,
}

abbrev pub auth_error_codes : List String
auth_error_codes =
    "not_authed" ∷ "not_authenticated" ∷ "unauthenticated" ∷ "unauthorized"
    ∷ "authentication_required" ∷ "auth_required" ∷ "invalid_auth" ∷ "invalid_token"
    ∷ "token_expired" ∷ "account_inactive" ∷ "missing_credentials" ∷ "no_credentials"
    ∷ "missing_api_key" ∷ "missing_token" ∷ []

abbrev pub auth_text_prefixes : List String
auth_text_prefixes =
    "unauthorized" ∷ "authentication" ∷ "not authenticated" ∷ "invalid token" ∷ "invalid api key"
    ∷ "missing token" ∷ "missing api key" ∷ "api key required" ∷ "token required"
    ∷ "credentials required" ∷ "auth required" ∷ "not_authed" ∷ "401" ∷ "403" ∷ []

unfoldable pub auth_error_string : String → Bool
auth_error_string value =
    let lowered = lower (strip value) in
    not (is_empty lowered || ltb 300 (len_chars lowered))
    && (any (λ code. str_eq code lowered) auth_error_codes
        || any (λ prefix. starts_with lowered prefix) auth_text_prefixes)

abbrev pub values_of : Fields → List Json
values_of no_fields = []
values_of (field k j fs) = j ∷ values_of fs

abbrev pub items_of : Items → List Json
items_of no_items = []
items_of (item j js) = j ∷ items_of js

-- The first of the values in which a failure is found.
abbrev pub first_found : (Json → Option String) → List Json → Option String
first_found find [] = none
first_found find (j ∷ js) = let rest = first_found find js in on_some (find j) some rest

-- The first of the keys whose value is the text of a failure.
abbrev pub error_under : List String → Fields → Option String
error_under [] fs = none
error_under (key ∷ keys) fs =
    let rest = error_under keys fs in
    elim (get_field key fs) [
      | some (Json.text value) ↦
          if auth_error_string value then some (take_chars 300 value) else rest
      | _ ↦ rest
    ]

abbrev pub own_error : String → Option String
own_error shown = if auth_error_string shown then some (take_chars 300 shown) else none

module _ (loads : String → Option Json) where
  -- With `levels` levels of nesting left: seven at first.
  unfoldable pub extract_inband_auth_error : ℕ → Json → Option String
  unfolding auth_error_string
  extract_inband_auth_error zero payload = none
  extract_inband_auth_error (suc levels) null = none
  extract_inband_auth_error (suc levels) (Json.text s) =
      let shown = strip s in
      let parsed = if starts_with shown "{" || starts_with shown "[" then loads shown else none in
      on_some parsed (extract_inband_auth_error levels) (own_error shown)
  extract_inband_auth_error (suc levels) (scalar s) = none
  extract_inband_auth_error (suc levels) (array js) =
      first_found (extract_inband_auth_error levels) (items_of js)
  extract_inband_auth_error (suc levels) (object fs) =
      on_some (error_under ("error" ∷ "message" ∷ "detail" ∷ []) fs) some
        (first_found (extract_inband_auth_error levels) (values_of fs))
