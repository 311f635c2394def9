-- ===== src/Search/Discovery/Sources.antt =====
-- What a failing source, and an answer of the official sources, change.
use discovery_application.Base.{
  ℕ, ◌+◌, ◌≤◌, ◌≡◌, refl, arith, String, false, Option, List, [], ◌∷◌, ◌++◌, length, leb_of_le,
  is_nil,
}
use discovery_application.Search.Discovery.{
  Answer, raised, SourceOutcome, gather_source_outcomes, official_candidates, task, discover_mcp,
  collect,
}

module _ {C : Type 0} where
  -- A source that raises takes no candidate and no success of the other sources away, wherever
  -- it stands among them.
  pub collect-raised :
      (before after : List (String × Answer C)) (name error : String)
      → ((collect (gather_source_outcomes (before ++ (name, raised error) ∷ after))).candidates
          ≡ (collect (gather_source_outcomes (before ++ after))).candidates)
        × ((collect
              (gather_source_outcomes (before ++ (name, raised error) ∷ after))).sources_succeeded
            ≡ (collect (gather_source_outcomes (before ++ after))).sources_succeeded)
  unfolding collect gather_source_outcomes
  collect-raised [] after name error = (refl, refl)
  collect-raised ((other, Answer.answered cs) ∷ before) after name error =
      let (same, succeeded) = collect-raised before after name error in (rw same, rw succeeded)
  collect-raised ((other, raised text) ∷ before) after name error =
      collect-raised before after name error

  -- Every source is attempted, and each either succeeded or failed.
  pub length-collect :
      (os : List (SourceOutcome C))
      → (length (collect os).sources_attempted ≡ length os)
        × (length (collect os).sources_succeeded + length (collect os).sources_failed ≡ length os)
  unfolding collect
  length-collect [] = (refl, refl)
  length-collect (o ∷ os) =
      let (attempted, split) = length-collect os in (ground arith, ground arith)

  -- If a configured official source leaves no shortfall, GitHub is not contacted.
  pub discover_mcp-official :
      (registry service : Option (Answer C)) (github other : Option (ℕ → Answer C))
      (min_results : ℕ)
      → is_nil (task "mcp_registry" registry ++ task "service" service) ≡ false
      → min_results
        ≤ length (
            official_candidates
              (gather_source_outcomes (task "mcp_registry" registry ++ task "service" service)))
      → discover_mcp registry service github min_results
        ≡ discover_mcp registry service other min_results
  unfolding discover_mcp
  discover_mcp-official registry service github other min_results asked enough =
      rw (asked, leb_of_le _ _ enough)
