-- ===== src/Catalog/Ranking/Order.antt =====
-- A strong match comes before any other.
use Prim.Native.String.{String}
use discovery_application.Base.{
  ℕ, ◌+◌, ◌*◌, ◌/◌, ◌≤◌, ◌<◌, ◌≡◌, arith, max, true, false, ◌||◌, List, [], ◌∷◌,
  round_half_even_whole, length, count, count-le-length, leb→le, ◌==◌, is_nil, contains, join,
  if_ind, round_half_even, round_half_even-le, round_half_even_mono, on_some,
}
use discovery_application.Catalog.Models.{Item}
use discovery_application.Catalog.Reliability.{ninety_days}
use discovery_application.Catalog.Ranking.{
  default_weights, millionth, searched_text, identity_text, lexical_relevance, is_strong,
  freshness_score, evidence_score, quality_score, official_registry_bonus, source_priority,
  rank_item,
}

bonus-le :
    (priority lexical quality : ℕ)
    → official_registry_bonus priority lexical quality ≤ 35 * ninety_days
unfolding official_registry_bonus
bonus-le priority lexical quality = ground arith

quality-le :
    (relevance reliability freshness evidence : ℕ)
    → relevance ≤ ninety_days
    → reliability ≤ ninety_days
    → freshness ≤ ninety_days
    → evidence ≤ ninety_days
    → quality_score default_weights relevance reliability freshness evidence ≤ 100 * ninety_days
unfolding quality_score
quality-le relevance reliability freshness evidence a b c d = omega arith

total-le :
    (lexical relevance reliability freshness evidence priority : ℕ)
    → lexical ≤ 500000 * millionth
    → relevance ≤ ninety_days
    → reliability ≤ ninety_days
    → freshness ≤ ninety_days
    → evidence ≤ ninety_days
    → 1000 * lexical
        + quality_score default_weights relevance reliability freshness evidence
        + official_registry_bonus priority lexical
            (quality_score default_weights relevance reliability freshness evidence)
      ≤ 6350000 * (100 * millionth)
total-le lexical relevance reliability freshness evidence priority h a b c d = omega (
  arith,
  bonus-le priority lexical
      (quality_score default_weights relevance reliability freshness evidence),
  quality-le relevance reliability freshness evidence a b c d,
)

-- A score that is not strong is at most one half.
abbrev IsWeak : (String → String) → ℕ → Type 0
IsWeak strip_namespace lexical =
    is_strong strip_namespace lexical ≡ false → lexical ≤ 500000 * millionth

lexical_relevance-IsWeak :
    (strip_namespace : String → String) (query_terms : List String) (item : Item)
    → IsWeak strip_namespace (lexical_relevance strip_namespace query_terms item)
unfolding lexical_relevance
lexical_relevance-IsWeak strip_namespace [] item = λ weak. omega arith
lexical_relevance-IsWeak strip_namespace (t ∷ ts) item =
    let matched = count (λ term. contains (searched_text strip_namespace item) term) (t ∷ ts) in
    let some_terms : 0 < length (t ∷ ts) = omega arith in
    let few : matched * 500000 ≤ 500000 * length (t ∷ ts) = omega (
      arith,
      count-le-length (λ term. contains (searched_text strip_namespace item) term) (t ∷ ts),
    ) in
    if_ind (IsWeak strip_namespace) (is_nil (t ∷ ts) || matched == 0) (λ _ weak. omega arith)
      (λ _.
        if_ind (IsWeak strip_namespace)
          (contains (identity_text strip_namespace item) (join " " (t ∷ ts))
            || contains (identity_text strip_namespace item) (join "-" (t ∷ ts)))
          (λ _ weak. cc weak)
          (λ _.
            if_ind (IsWeak strip_namespace) (matched == length (t ∷ ts)) (λ _ weak. cc weak)
              (λ _ weak.
                let half = round_half_even-le (matched * 500000) _ 500000 some_terms few in
                omega (arith, half))))

round-ge : (n : ℕ) → 9000000 * (100 * millionth) ≤ n → 9000000 ≤ round_half_even n (100 * millionth)
round-ge n h = omega (
  arith,
  round_half_even_whole 9000000 (100 * millionth) (omega arith),
  round_half_even_mono (9000000 * (100 * millionth)) n (100 * millionth) (omega arith) h,
)

module _ (embed_item : Item → String) (similarity : String → ℕ) (now : ℕ) where
  final-ge :
      (lexical : ℕ) (item : Item)
      → 900000 * millionth ≤ lexical
      → 9000000 ≤ (rank_item embed_item similarity default_weights now lexical item).final_score
  unfolding rank_item
  final-ge lexical item h = round-ge _ (omega arith)

  final-le :
      (lexical : ℕ) (item : Item)
      → ((vector : String) → similarity vector ≤ ninety_days)
      → item.reliability.score ≤ 10000
      → lexical ≤ 500000 * millionth
      → (rank_item embed_item similarity default_weights now lexical item).final_score ≤ 6350000
  unfolding rank_item freshness_score evidence_score
  final-le lexical item similar reliable h =
      let vector = on_some item.embedding (λ v. v) (embed_item item) in
      round_half_even-le _ (100 * millionth) 6350000 (omega arith) (
        total-le lexical (max (similarity vector) lexical)
          (item.reliability.score * (ninety_days / 10000)) (freshness_score now item)
          (evidence_score item) (source_priority item) h (omega (arith, similar vector))
          (omega arith) (omega arith) (omega arith))

  -- With the default weights, similarities of at most 1 and a reliability of the weak item of at most
  -- 1, an item of strong lexical relevance has a higher final score than one that has not, whatever
  -- the sources, the freshness and the evidence of the two are.
  pub rank_item-strong :
      (strip_namespace : String → String) (query_terms : List String) (strong weak : Item)
      → ((vector : String) → similarity vector ≤ ninety_days)
      → weak.reliability.score ≤ 10000
      → is_strong strip_namespace (lexical_relevance strip_namespace query_terms strong) ≡ true
      → is_strong strip_namespace (lexical_relevance strip_namespace query_terms weak) ≡ false
      → (rank_item embed_item similarity default_weights now
          (lexical_relevance strip_namespace query_terms weak)
          weak).final_score
        < (rank_item embed_item similarity default_weights now
            (lexical_relevance strip_namespace query_terms strong)
            strong).final_score
  rank_item-strong strip_namespace query_terms strong weak similar reliable s w = omega (
    arith,
    final-ge (lexical_relevance strip_namespace query_terms strong) strong (leb→le _ _ s),
    final-le (lexical_relevance strip_namespace query_terms weak) weak similar reliable
        (lexical_relevance-IsWeak strip_namespace query_terms weak w),
  )
