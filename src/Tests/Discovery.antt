-- ===== src/Tests/Discovery.antt =====
-- Live discovery with answers that are numbers.
use discovery_application.Base.{ℕ, ◌≡◌, refl, some, none, [], ◌∷◌}
use discovery_application.Search.Discovery.{
  Answer, answered, raised, refused, empty_query, bad_item_type, gather_source_outcomes,
  official_candidates, github_step, discover_mcp, collect, discover,
}

discovery : Unit {0}
unfolding gather_source_outcomes official_candidates github_step discover_mcp collect discover
discovery = tt

abbrev two : Answer ℕ
two = answered (1 ∷ 2 ∷ [])

-- GitHub answers with the number that it was asked for.
abbrev echo : ℕ → Answer ℕ
echo n = answered (n ∷ [])

abbrev late : Answer ℕ
late = raised "timeout"

abbrev failing : ℕ → Answer ℕ
failing n = raised "timeout"

shortfall : (collect (discover_mcp (some two) none (some echo) 5)).candidates ≡ 1 ∷ 2 ∷ 3 ∷ []
unfolding discovery
shortfall = refl

refusals :
    (discover {C = ℕ} "  " "all" [] ≡ refused empty_query)
    × (discover {C = ℕ} "mail" "server" [] ≡ refused bad_item_type)
unfolding discovery
refusals = (refl, refl)
