-- ===== src/Catalog/Planner/Clean.antt =====
-- Every plan is clean, and every query that is not blank has one.
use Prim.Native.String.{String, [] as no_text, ◌∷◌ as ◌:∷◌}
use Prim.Native.Char.{Char}
use discovery_application.Base.{
  ℕ, zero, suc, ◌≤◌, ◌≡◌, ◌≢◌, ◌⊎◌, refl, sym, ◌∙◌, subst, arith, false, not, ◌||◌, Option, none,
  some, List, [], ◌∷◌, All, In, inl, inr, map, keep, keep_sound, All-In, take, length,
  length-take-le, on_some, on_some_ind, if_ind, is_empty, strip, strip_left, strip_right, is_space,
  lower, str_eq, str_eq_iff, Bool-cases, AreDistinct, Option-cases,
}
use discovery_application.Catalog.Deduplication.{is_seen, unseen}
use discovery_application.Catalog.Planner.{
  PreferredType, QueryPlan, clean_short_strings, validated, inferred_type, fallback_draft,
  fallback_plan, gemini_plan, plan_query,
}

is_seen-ne : (seen : List String) (k key : String) → is_seen seen key ≡ false → In k seen → key ≢ k
is_seen-ne [] k key h i = absurd i
is_seen-ne (s ∷ seen) k key h i = elim (Bool-cases (str_eq s key)) [
  | inl same ↦ cc (rw same at h)
  | inr other ↦ elim i [
    | inl own ↦
        λ e. let at : s ≡ key = sym (let t : key ≡ s = cc in t) in cc ((str_eq_iff s key).1 at)
    | inr j ↦ is_seen-ne seen k key (rw other at h) j
  ]
]

abbrev id : String → String
id s = s

unseen-fresh :
    (k : String) (seen xs : List String) → In k seen → All (λ y. y ≢ k) (unseen id seen xs)
unfolding unseen
unseen-fresh k seen [] i = tt
unseen-fresh k seen (x ∷ xs) i = elim (Bool-cases (is_seen seen x)) [
  | inl old ↦ rw (unseen, old) (unseen-fresh k seen xs i)
  | inr new ↦ rw (unseen, new) (is_seen-ne seen k x new i, unseen-fresh k (x ∷ seen) xs (inr i))
]

unseen-AreDistinct : (seen xs : List String) → AreDistinct id (unseen id seen xs)
unfolding unseen
unseen-AreDistinct seen [] = tt
unseen-AreDistinct seen (x ∷ xs) = elim (Bool-cases (is_seen seen x)) [
  | inl old ↦ rw (unseen, old) (unseen-AreDistinct seen xs)
  | inr new ↦
      rw (unseen, new) (unseen-fresh x (x ∷ seen) xs (inl refl), unseen-AreDistinct (x ∷ seen) xs)
]

unseen-All : (P : String → Type 0) (seen xs : List String) → All P xs → All P (unseen id seen xs)
unfolding unseen
unseen-All P seen [] h = tt
unseen-All P seen (x ∷ xs) (p, h) = elim (Bool-cases (is_seen seen x)) [
  | inl old ↦ rw (unseen, old) (unseen-All P seen xs h)
  | inr new ↦ rw (unseen, new) (p, unseen-All P (x ∷ seen) xs h)
]

take-All : (P : String → Type 0) (n : ℕ) (xs : List String) → All P xs → All P (take n xs)
take-All P zero xs h = tt
take-All P (suc n) [] h = tt
take-All P (suc n) (x ∷ xs) (p, h) = (p, take-All P n xs h)

take-AreDistinct : (n : ℕ) (xs : List String) → AreDistinct id xs → AreDistinct id (take n xs)
take-AreDistinct zero xs h = tt
take-AreDistinct (suc n) [] h = tt
take-AreDistinct (suc n) (x ∷ xs) (p, h) = (take-All _ n xs p, take-AreDistinct n xs h)

-- At most twenty texts, all different and none empty.
pub record AreClean (strings : List String) : Type 0 where
  pub few : length strings ≤ 20
  pub distinct : AreDistinct id strings
  pub nonempty : All (λ s. is_empty s ≡ false) strings

clean_short_strings-AreClean : (strings : List String) → AreClean (clean_short_strings strings)
unfolding clean_short_strings
clean_short_strings-AreClean strings =
    let all_cleaned = map (λ s. lower (strip s)) strings in
    let kept = keep (λ s. not (is_empty s)) all_cleaned in
    record {
      few = length-take-le 20 (unseen id [] kept);
      distinct = take-AreDistinct 20 (unseen id [] kept) (unseen-AreDistinct [] kept);
      nonempty = take-All _ 20 (unseen id [] kept) (
          unseen-All _ [] kept (
            All-In (λ s. is_empty s ≡ false) kept
              (λ s i. let e = (keep_sound _ all_cleaned s i).0 in ground arith)));
    }

-- A plan for a query, of the type that was asked for, if any.
pub record IsPlan (preferred_type : Option PreferredType) (plan : QueryPlan) : Type 0 where
  pub keywords : AreClean plan.keywords
  pub source_hints : AreClean plan.source_hints
  pub expanded_query : is_empty plan.expanded_query ≡ false
  pub of_type : on_some preferred_type (λ t. t) plan.preferred_type ≡ plan.preferred_type

strip_left-cases :
    (s : String)
    → (strip_left s ≡ no_text)
      ⊎ ((c : Char) × (r : String) × (strip_left s ≡ c :∷ r) × (is_space c ≡ false))
unfolding strip_left
strip_left-cases no_text = inl refl
strip_left-cases (c :∷ s) = elim (Bool-cases (is_space c)) [
  | inl blank ↦ rw blank (strip_left-cases s)
  | inr shown ↦ rw shown (inr (c, s, refl, shown))
]

strip_right-shown :
    (c : Char) (s : String) → is_space c ≡ false → strip_right (c :∷ s) ≡ c :∷ strip_right s
unfolding strip_right
strip_right-shown c s shown = elim (Bool-cases (is_empty (strip_right s))) [
  | inl last ↦ rw (last, shown) refl
  | inr more ↦ rw more refl
]

strip_left-shown : (c : Char) (s : String) → is_space c ≡ false → strip_left (c :∷ s) ≡ c :∷ s
unfolding strip_left
strip_left-shown c s shown = rw shown refl

-- A text that is not blank is not blank when it is stripped again.
strip-strip : (s : String) → is_empty (strip s) ≡ false → is_empty (strip (strip s)) ≡ false
unfolding strip
strip-strip s h = elim (strip_left-cases s) [
  | inl blank ↦ cc (rw blank at h)
  | inr (c, r, e, shown) ↦
      rw
        (
          e,
          strip_right-shown c r shown,
          strip_left-shown c (strip_right r) shown,
          strip_right-shown c (strip_right r) shown,
        )
        refl
]

validated-IsPlan :
    (preferred_type : Option PreferredType) (plan : QueryPlan)
    → is_empty (strip plan.expanded_query) ≡ false
    → on_some preferred_type (λ t. t) plan.preferred_type ≡ plan.preferred_type
    → (p : QueryPlan) × (validated plan ≡ some p) × IsPlan preferred_type p
unfolding validated
validated-IsPlan preferred_type plan h of_type = rw h (
  record plan {
    keywords = clean_short_strings plan.keywords;
    expanded_query = strip plan.expanded_query;
    source_hints = clean_short_strings plan.source_hints;
  },
  refl,
  record {
    keywords = clean_short_strings-AreClean plan.keywords;
    source_hints = clean_short_strings-AreClean plan.source_hints;
    expanded_query = h;
    of_type = of_type;
  },
)

on_some-on_some :
    (o : Option PreferredType) (t : PreferredType)
    → on_some o (λ t. t) (on_some o (λ t. t) t) ≡ on_some o (λ t. t) t
on_some-on_some none t = refl
on_some-on_some (some a) t = refl

fallback_plan-IsPlan :
    (raw_query : String) (preferred_type : Option PreferredType)
    → is_empty (strip raw_query) ≡ false
    → (p : QueryPlan) × (fallback_plan raw_query preferred_type ≡ some p) × IsPlan preferred_type p
unfolding fallback_plan fallback_draft
fallback_plan-IsPlan raw_query preferred_type h = rw h (
    validated-IsPlan preferred_type (fallback_draft (strip raw_query) preferred_type)
      (strip-strip raw_query h)
      (on_some-on_some preferred_type (inferred_type (lower (strip raw_query)))))

validated-answer : (answer p : QueryPlan) → validated answer ≡ some p → IsPlan none p
validated-answer answer p h = elim (Bool-cases (is_empty (strip answer.expanded_query))) [
  | inl blank ↦
      let e : validated answer ≡ none = unfold validated in rw blank refl in cc (sym h ∙ e)
  | inr shown ↦
      let (q, made, plan) = validated-IsPlan none answer shown refl in
      let same : q ≡ p = cc in subst (IsPlan none) same plan
]

module _ (gemini_api_key : String) (gemini : String → Option QueryPlan) where
  gemini_plan-cases :
      (raw_query : String) (p : QueryPlan)
      → gemini_plan gemini_api_key gemini raw_query ≡ some p
      → IsPlan none p
  unfolding gemini_plan
  gemini_plan-cases raw_query p =
      if_ind (λ (o : Option QueryPlan). o ≡ some p → IsPlan none p)
        (is_empty gemini_api_key || is_empty (strip raw_query)) (λ _ h. cc h)
        (λ _.
          on_some_ind (λ (o : Option QueryPlan). o ≡ some p → IsPlan none p)
            (gemini (strip raw_query)) (λ answer _ h. validated-answer answer p h) (λ _ h. cc h))

  -- Whatever the language model answers, a query that is not blank gets a plan: with at most twenty
  -- different keywords and hints, none empty, with a text, and of the type that was asked for, if any.
  pub plan_query_total :
      (raw_query : String) (preferred_type : Option PreferredType)
      → is_empty (strip raw_query) ≡ false
      → (plan : QueryPlan) × (plan_query gemini_api_key gemini raw_query preferred_type ≡ some plan)
        × IsPlan preferred_type plan
  unfolding plan_query
  plan_query_total raw_query preferred_type h =
      elim (Option-cases (gemini_plan gemini_api_key gemini raw_query)) [
        | inl missing ↦ rw missing (fallback_plan-IsPlan raw_query preferred_type h)
        | inr (p, found) ↦
            let plan = gemini_plan-cases raw_query p found in
            rw found (
              record p { preferred_type = on_some preferred_type (λ t. t) p.preferred_type },
              refl,
              record {
                keywords = plan.keywords;
                source_hints = plan.source_hints;
                expanded_query = plan.expanded_query;
                of_type = on_some-on_some preferred_type p.preferred_type;
              },
            )
      ]
