-- ===== src/Sandbox/AuthSignals/Found.antt =====
-- What is reported is the text of a failure.
use discovery_application.Base.{
  ℕ, zero, suc, ◌≡◌, refl, subst, String, true, ◌||◌, Option, none, some, List, [], ◌∷◌,
  on_some_ind, if_ind, if◌then◌else◌, strip, take_chars,
}
use package.text.Mathlib.Text.{starts_with}
use discovery_application.Verification.Judge.{
  Json, null, text, scalar, array, object, Fields, get_field,
}
use discovery_application.Sandbox.AuthSignals.{
  auth_error_string, values_of, items_of, first_found, error_under, extract_inband_auth_error,
}

-- The first 300 characters of a text that reads as a failure.
pub IsAuthText : String → Type 0
IsAuthText shown =
    (value : String) × (auth_error_string value ≡ true) × (shown ≡ take_chars 300 value)

-- What is found, if anything, is such a text.
abbrev Finds : Option String → Type 0
Finds none = Unit {0}
Finds (some shown) = IsAuthText shown

own_error-Finds :
    (value : String) (rest : Option String)
    → Finds rest
    → Finds (if auth_error_string value then some (take_chars 300 value) else rest)
unfolding IsAuthText
own_error-Finds value rest h =
    if_ind Finds (auth_error_string value) (λ e. (value, e, refl)) (λ _. h)

first_found-Finds :
    (find : Json → Option String)
    → ((j : Json) → Finds (find j))
    → (js : List Json) → Finds (first_found find js)
first_found-Finds find h [] = tt
first_found-Finds find h (j ∷ js) =
    on_some_ind Finds (find j) (λ shown e. subst Finds e (h j)) (λ _. first_found-Finds find h js)

field-Finds :
    (found : Option Json) (rest : Option String)
    → Finds rest
    → Finds (elim found [
      | some (Json.text value) ↦
          if auth_error_string value then some (take_chars 300 value) else rest
      | _ ↦ rest
    ])
field-Finds none rest h = h
field-Finds (some null) rest h = h
field-Finds (some (Json.text value)) rest h = own_error-Finds value rest h
field-Finds (some (scalar s)) rest h = h
field-Finds (some (array js)) rest h = h
field-Finds (some (object fs)) rest h = h

error_under-Finds : (keys : List String) (fs : Fields) → Finds (error_under keys fs)
error_under-Finds [] fs = tt
error_under-Finds (key ∷ keys) fs =
    field-Finds (get_field key fs) (error_under keys fs) (error_under-Finds keys fs)

extract-Finds :
    (loads : String → Option Json) (levels : ℕ) (payload : Json)
    → Finds (extract_inband_auth_error loads levels payload)
unfolding extract_inband_auth_error
extract-Finds loads zero payload = tt
extract-Finds loads (suc levels) null = tt
extract-Finds loads (suc levels) (Json.text s) =
    on_some_ind Finds
      (if starts_with (strip s) "{" || starts_with (strip s) "[" then loads (strip s) else none)
      (λ parsed _. extract-Finds loads levels parsed) (λ _. own_error-Finds (strip s) none tt)
extract-Finds loads (suc levels) (scalar s) = tt
extract-Finds loads (suc levels) (array js) =
    first_found-Finds (extract_inband_auth_error loads levels) (extract-Finds loads levels)
      (items_of js)
extract-Finds loads (suc levels) (object fs) =
    on_some_ind Finds (error_under ("error" ∷ "message" ∷ "detail" ∷ []) fs)
      (λ shown e. subst Finds e (error_under-Finds ("error" ∷ "message" ∷ "detail" ∷ []) fs))
      (λ _.
        first_found-Finds (extract_inband_auth_error loads levels) (extract-Finds loads levels)
          (values_of fs))

-- What is reported as a failed authorization, at any nesting, is the first 300 characters of a text
-- that reads as one.
pub extract_inband_auth_error-IsAuthText :
    (loads : String → Option Json) (levels : ℕ) (payload : Json) (shown : String)
    → extract_inband_auth_error loads levels payload ≡ some shown
    → IsAuthText shown
extract_inband_auth_error-IsAuthText loads levels payload shown h =
    subst Finds h (extract-Finds loads levels payload)
