-- ===== src/Verification/Judge/Heuristic.antt =====
-- What the heuristic judge accepts, and the judge without a language model.
use Prim.Native.String.{count as len_chars}
use discovery_application.Base.{
  ◌≡◌, ◌↔◌, refl, String, Bool, true, false, ◌&&◌, All, find?, find?-none, find?-miss, Bool-cases,
  Option-cases, inl, inr, ltb, lower, strip, is_empty, contains,
}
use discovery_application.Verification.Judge.{
  Json, Fields, extract_text, heuristic_judge, error_markers, placeholder_markers,
}

module _ (dumps : Fields → String) where
  abbrev shown : Json → String
  shown output = strip (extract_text dumps 7 output)

  abbrev looks_failed : Json → String → Bool
  looks_failed output marker =
      contains (lower (shown output)) marker && ltb (len_chars (lower (shown output))) 2000

  abbrev looks_stubbed : Json → String → Bool
  looks_stubbed output marker = contains (lower (shown output)) marker

  -- A result that the heuristic judge has nothing against.
  pub IsPlausible : Json → Type 0
  IsPlausible output =
      (is_empty (shown output) ≡ false)
      × All (λ marker. looks_failed output marker ≡ false) error_markers
      × All (λ marker. looks_stubbed output marker ≡ false) placeholder_markers

  heuristic_judge_sound :
      (tool_name : String) (output : Json)
      → (heuristic_judge dumps tool_name output).valid ≡ true
      → IsPlausible output
  unfolding heuristic_judge IsPlausible
  heuristic_judge_sound tool_name output h = elim (Bool-cases (is_empty (shown output))) [
    | inl e ↦ cc (rw e at h)
    | inr filled ↦ elim (Option-cases (find? (looks_failed output) error_markers)) [
      | inr (m, e) ↦ cc (rw (filled, e) at h)
      | inl fine ↦ elim (Option-cases (find? (looks_stubbed output) placeholder_markers)) [
        | inr (m, e) ↦ cc (rw (filled, fine, e) at h)
        | inl real ↦ (
          filled,
          find?-none (looks_failed output) error_markers fine,
          find?-none (looks_stubbed output) placeholder_markers real,
        )
      ]
    ]
  ]

  heuristic_judge_complete :
      (tool_name : String) (output : Json)
      → IsPlausible output
      → (heuristic_judge dumps tool_name output).valid ≡ true
  unfolding heuristic_judge IsPlausible
  heuristic_judge_complete tool_name output (filled, fine, real) =
      rw
        (
          filled,
          find?-miss (looks_failed output) error_markers fine,
          find?-miss (looks_stubbed output) placeholder_markers real,
        )
        refl

  -- The heuristic judge accepts a result exactly when its text is not blank, has no marker of a
  -- stub, and none of an error unless it has 2000 characters or more.
  pub heuristic_judge-valid_iff :
      (tool_name : String) (output : Json)
      → ((heuristic_judge dumps tool_name output).valid ≡ true) ↔ IsPlausible output
  heuristic_judge-valid_iff tool_name output =
      (heuristic_judge_sound tool_name output, heuristic_judge_complete tool_name output)
