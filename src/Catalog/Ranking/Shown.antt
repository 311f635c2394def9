-- ===== src/Catalog/Ranking/Shown.antt =====
-- Which items a search shows where one of them matches well, and in which order.
use Prim.Native.String.{String}
use discovery_application.Base.{
  ℕ, ◌≤◌, ◌≡◌, ◌⊎◌, refl, sym, ap, subst, ◌∙◌, arith, true, false, Bool, some, List, [], ◌∷◌, All,
  In, inl, inr, any, values, lookup, not, ◌&&◌, ltb, ◌*◌, In-All, All-mono, keep_complete,
  lookup-put, lookup-put_other, put, Dict, text-cases, Bool-cases, str_eq, keep, keep_sound, map,
  leb, sort_desc-All, sort_desc-In, IsDescending, sort_desc-IsDescending,
}
use discovery_application.Catalog.Models.{Item}
use discovery_application.Catalog.Reliability.{ninety_days}
use discovery_application.Catalog.Ranking.{
  RankedItem, millionth, default_weights, lexical_relevance, is_strong, rank_item, rank_items,
  lexical_scores, meaningful_query_terms, is_shown, score_in,
}
use discovery_application.Catalog.Ranking.Order.{rank_item-strong}

any-values :
    (p : ℕ → Bool) (key : String) (n : ℕ) (d : Dict ℕ)
    → lookup key d ≡ some n
    → p n ≡ true
    → any p (values d) ≡ true
any-values p key n [] found h = cc
any-values p key n ((k, m) ∷ d) found h = elim (Bool-cases (str_eq k key)) [
  | inl same ↦ let this : some m ≡ some n = rw same at found in ground (arith, this, h)
  | inr other ↦ let rest = any-values p key n d (rw other at found) h in ground (arith, rest)
]

module _ (strip_namespace : String → String) (query_terms : List String) where
  abbrev pub relevance : Item → ℕ
  relevance x = lexical_relevance strip_namespace query_terms x

  -- An item is told by its identifier.
  abbrev pub AreIdentified : List Item → Type 0
  AreIdentified items = (x y : Item) → In x items → In y items → x.item_id ≡ y.item_id → x ≡ y

  scores-kept :
      (x : Item) (ys : List Item) (scores : Dict ℕ)
      → ((y : Item) → In y ys → x.item_id ≡ y.item_id → x ≡ y)
      → lookup x.item_id scores ≡ some (relevance x)
      → lookup x.item_id (lexical_scores strip_namespace query_terms ys scores) ≡ some (relevance x)
  unfolding lexical_scores
  scores-kept x [] scores one h = h
  scores-kept x (y ∷ ys) scores one h =
      scores-kept x ys (put y.item_id (relevance y) scores) (λ z i. one z (inr i))
        (elim (text-cases x.item_id y.item_id) [
          | inl same ↦
              ap (λ id. lookup id (put y.item_id (relevance y) scores)) same
              ∙ lookup-put y.item_id (relevance y) scores
              ∙ ap (λ z. some (relevance z)) (sym (one y (inl refl) same))
          | inr other ↦ lookup-put_other y.item_id x.item_id (relevance y) scores other ∙ h
        ])

  scores-found :
      (x : Item) (ys : List Item) (scores : Dict ℕ)
      → ((y : Item) → In y ys → x.item_id ≡ y.item_id → x ≡ y)
      → In x ys
      → lookup x.item_id (lexical_scores strip_namespace query_terms ys scores) ≡ some (relevance x)
  unfolding lexical_scores
  scores-found x [] scores one i = absurd i
  scores-found x (y ∷ ys) scores one (inl e) =
      scores-kept x ys (put y.item_id (relevance y) scores) (λ z i. one z (inr i))
        (ap (λ z. lookup z.item_id (put y.item_id (relevance y) scores)) e
          ∙ lookup-put y.item_id (relevance y) scores
          ∙ ap (λ z. some (relevance z)) (sym e))
  scores-found x (y ∷ ys) scores one (inr i) =
      scores-found x ys (put y.item_id (relevance y) scores) (λ z j. one z (inr j)) i

  -- The row is of an item that matches well.
  abbrev pub IsStrong : RankedItem → Type 0
  IsStrong row = is_strong strip_namespace (relevance row.item) ≡ true

  -- After a row of an item that does not match well, there is none that does.
  abbrev pub StrongFirst : List RankedItem → Type 0
  StrongFirst [] = Unit {0}
  StrongFirst (row ∷ rows) =
      (is_strong strip_namespace (relevance row.item) ≡ false
        → All (λ r. is_strong strip_namespace (relevance r.item) ≡ false) rows)
      × StrongFirst rows

  module _ (embed_item : Item → String) (similarity : String → ℕ) (now : ℕ)
      (similar : (vector : String) → similarity vector ≤ ninety_days) where
    -- The row of an item, with the default weights.
    abbrev pub row_of : Item → RankedItem
    row_of x = rank_item embed_item similarity default_weights now (relevance x) x

    -- The row of one of the items, with its own scores.
    abbrev pub IsRow : List Item → RankedItem → Type 0
    IsRow items row = In row.item items × (row ≡ row_of row.item)

    weak_after :
        (items : List Item) (row : RankedItem) (rows : List RankedItem)
        → All (λ x. x.reliability.score ≤ 10000) items
        → IsRow items row
        → is_strong strip_namespace (relevance row.item) ≡ false
        → All (IsRow items) rows
        → All (λ r. r.final_score ≤ row.final_score) rows
        → All (λ r. is_strong strip_namespace (relevance r.item) ≡ false) rows
    weak_after items row [] reliable own weak owns top = tt
    weak_after items row (r ∷ rows) reliable (i, own) weak ((j, its), owns) (le, top) = (
      elim (Bool-cases (is_strong strip_namespace (relevance r.item))) [
        | inl strong ↦
            let above =
              rank_item-strong embed_item similarity now strip_namespace query_terms r.item row.item
                similar (In-All _ items reliable i) strong weak in
            let low = ap (λ x. x.final_score) own in
            let high = ap (λ x. x.final_score) its in absurd (omega (arith, above, low, high, le))
        | inr other ↦ other
      ],
      weak_after items row rows reliable (i, own) weak owns top,
    )

    strong_first :
        (items : List Item) (rows : List RankedItem)
        → All (λ x. x.reliability.score ≤ 10000) items
        → All (IsRow items) rows
        → IsDescending (λ row. row.final_score) rows
        → StrongFirst rows
    strong_first items [] reliable owns desc = tt
    strong_first items (row ∷ rows) reliable (own, owns) (top, desc) = (
      λ weak. weak_after items row rows reliable own weak owns top,
      strong_first items rows reliable owns desc,
    )

map-All :
    {A B : Type 0} (P : B → Type 0) (f : A → B) (xs : List A)
    → ((x : A) → In x xs → P (f x))
    → All P (map f xs)
map-All P f [] h = tt
map-All P f (x ∷ xs) h = (h x (inl refl), map-All P f xs (λ y i. h y (inr i)))

map-In : {A B : Type 0} (f : A → B) (x : A) (xs : List A) → In x xs → In (f x) (map f xs)
map-In f x [] i = absurd i
map-In f x (y ∷ xs) (inl e) = inl (ap f e)
map-In f x (y ∷ xs) (inr i) = inr (map-In f x xs i)

-- With a strong match among the items, a shown item is one or matches nothing.
shown_cases :
    (strip_namespace : String → String) (n : ℕ)
    → not (true && ltb 0 n && ltb n (900000 * millionth)) ≡ true
    → (is_strong strip_namespace n ≡ true) ⊎ (n ≡ 0)
shown_cases strip_namespace n h = elim (Bool-cases (leb (900000 * millionth) n)) [
  | inl e ↦ inl e
  | inr e ↦ inr (ground arith)
]

strong-shown :
    (strip_namespace : String → String) (b : Bool) (n : ℕ)
    → is_strong strip_namespace n ≡ true
    → not (b && ltb 0 n && ltb n (900000 * millionth)) ≡ true
strong-shown strip_namespace b n h = ground arith

module _ (embed_item : Item → String) (similarity : String → ℕ) (now : ℕ)
    (similar : (vector : String) → similarity vector ≤ ninety_days)
    (strip_namespace : String → String) (query : String) where
  abbrev pub terms : List String
  terms = meaningful_query_terms query

  -- With the default weights, similarities of at most 1, reliabilities of at most 1 and items that
  -- are told by their identifiers, where one of the items matches strongly: each row is that of an
  -- item, with its own scores, that matches strongly or not at all; the strong matches all have
  -- their rows; and these come before all others.
  pub rank_items-StrongFirst :
      (items : List Item) (best : Item)
      → AreIdentified strip_namespace terms items
      → All (λ x. x.reliability.score ≤ 10000) items
      → In best items
      → is_strong strip_namespace (relevance strip_namespace terms best) ≡ true
      → All
          (λ row.
            IsRow strip_namespace terms embed_item similarity now similar items row
            × (IsStrong strip_namespace terms row ⊎ (relevance strip_namespace terms row.item ≡ 0)))
          (rank_items embed_item similarity default_weights now strip_namespace query items)
        × ((x : Item)
            → In x items
            → is_strong strip_namespace (relevance strip_namespace terms x) ≡ true
            → In
                (row_of strip_namespace terms embed_item similarity now similar x)
                (rank_items embed_item similarity default_weights now strip_namespace query items))
        × StrongFirst strip_namespace terms
            (rank_items embed_item similarity default_weights now strip_namespace query items)
  unfolding rank_items rank_item
  rank_items-StrongFirst items best one reliable there strong =
      let scores = lexical_scores strip_namespace terms items [] in
      let score = score_in embed_item similarity default_weights now scores in
      let is_some_strong = any (is_strong strip_namespace) (values scores) in
      let shown = is_shown embed_item similarity default_weights now scores is_some_strong in
      let found : (x : Item)
          → In x items
          → lookup x.item_id scores ≡ some (relevance strip_namespace terms x) =
        λ x i. scores-found strip_namespace terms x items [] (λ y j. one x y i j) i in
      let hit : is_some_strong ≡ true =
        any-values (is_strong strip_namespace) best.item_id _ scores (found best there) strong in
      let rated : (x : Item) → In x items → score x ≡ relevance strip_namespace terms x =
        λ x i. rw (found x i) refl in
      let P = λ (row : RankedItem).
        IsRow strip_namespace terms embed_item similarity now similar items row
        × (IsStrong strip_namespace terms row ⊎ (relevance strip_namespace terms row.item ≡ 0)) in
      let row = λ (x : Item). rank_item embed_item similarity default_weights now (score x) x in
      let rows : All P (map row (keep shown items)) = map-All P row (keep shown items) (λ x k.
        let (show, i) = keep_sound shown items x k in
        (
          (i, ap (λ n. rank_item embed_item similarity default_weights now n x) (rated x i)),
          shown_cases strip_namespace (relevance strip_namespace terms x)
              (rw (found x i, hit) at show),
        )) in
      let sorted = sort_desc-All (λ r. r.final_score) P (map row (keep shown items)) rows in
      (
        sorted,
        λ x i good.
            let visible : shown x ≡ true =
              rw (found x i) (strong-shown strip_namespace is_some_strong _ good) in
            sort_desc-In (λ r. r.final_score) _ _
              (subst
                (λ n.
                  In (rank_item embed_item similarity default_weights now n x)
                    (map row (keep shown items)))
                (rated x i)
                (map-In row x (keep shown items) (keep_complete shown items x i visible))),
        strong_first strip_namespace terms embed_item similarity now similar items _ reliable
            (All-mono _ _ _ (λ r h. h.0) sorted)
            (sort_desc-IsDescending (λ r. r.final_score) (map row (keep shown items))),
      )
