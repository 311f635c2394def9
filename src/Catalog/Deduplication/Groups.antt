-- ===== src/Catalog/Deduplication/Groups.antt =====
-- Groups have different keys, and no evidence is lost.
use discovery_application.Base.{
  ◌≡◌, refl, sym, ap, subst, ◌∙◌, String, true, some, List, [], ◌∷◌, ◌++◌, map, In, inl, inr, ◌⊎◌,
  str_eq, str_eq_iff, Bool-cases, Option-cases, Dict, lookup, put, lookup-put, lookup-put_other,
  text-cases, AreDistinct, IsKeyed, put-IsKeyed, values-AreDistinct, lookup-IsKeyed,
}
use discovery_application.Catalog.Models.{Item, DiscoveryEvidence}
use discovery_application.Catalog.Identity.{SplitUrl}
use discovery_application.Catalog.Deduplication.{
  is_seen, unseen, merge_evidence, absorb, group_in, group_each, deduplicate,
  item_deduplication_key,
}

is_seen-In : (seen : List String) (key : String) → is_seen seen key ≡ true → In key seen
is_seen-In [] key h = cc
is_seen-In (k ∷ seen) key h = elim (Bool-cases (str_eq k key)) [
  | inl e ↦ inl (sym ((str_eq_iff k key).0 e))
  | inr e ↦ inr (is_seen-In seen key (rw e at h))
]

module _ {A : Type 0} (key : A → String) where
  unseen_complete :
      (seen : List String) (xs : List A) (x : A)
      → In x xs
      → In (key x) (map key (unseen key seen xs)) ⊎ In (key x) seen
  unfolding unseen
  unseen_complete seen [] x i = absurd i
  unseen_complete seen (y ∷ ys) x (inl same) = elim (Bool-cases (is_seen seen (key y))) [
    | inl old ↦ rw (unseen, old, same) (inr (is_seen-In seen (key y) old))
    | inr new ↦ rw (unseen, new, same) (inl (inl refl))
  ]
  unseen_complete seen (y ∷ ys) x (inr i) = elim (Bool-cases (is_seen seen (key y))) [
    | inl old ↦ rw (unseen, old) (unseen_complete seen ys x i)
    | inr new ↦
        rw (unseen, new)
          (elim (unseen_complete (key y ∷ seen) ys x i) [
            | inl found ↦ inl (inr found)
            | inr (inl same) ↦ inl (inl same)
            | inr (inr old) ↦ inr old
          ])
  ]

In-append : {A : Type 0} (x : A) (xs ys : List A) → In x xs ⊎ In x ys → In x (xs ++ ys)
In-append x [] ys (inl i) = absurd i
In-append x [] ys (inr i) = i
In-append x (y ∷ xs) ys (inl (inl same)) = inl same
In-append x (y ∷ xs) ys (inl (inr i)) = inr (In-append x xs ys (inl i))
In-append x (y ∷ xs) ys (inr i) = inr (In-append x xs ys (inr i))

abbrev pub evidence_ids : List DiscoveryEvidence → List String
evidence_ids evidence = map (λ e. e.evidence_id) evidence

In-map :
    (e : DiscoveryEvidence) (xs : List DiscoveryEvidence)
    → In e xs
    → In e.evidence_id (evidence_ids xs)
In-map e [] i = absurd i
In-map e (x ∷ xs) (inl same) = inl (ap (λ y. y.evidence_id) same)
In-map e (x ∷ xs) (inr i) = inr (In-map e xs i)

In-ids :
    (id : String) (xs : List DiscoveryEvidence)
    → In id (evidence_ids xs)
    → (e : DiscoveryEvidence) × In e xs × (e.evidence_id ≡ id)
In-ids id [] i = absurd i
In-ids id (x ∷ xs) (inl same) = (x, inl refl, sym same)
In-ids id (x ∷ xs) (inr i) = let (e, j, at) = In-ids id xs i in (e, inr j, at)

merge_evidence_complete :
    (id : String) (left right : List DiscoveryEvidence)
    → In id (evidence_ids left) ⊎ In id (evidence_ids right)
    → In id (evidence_ids (merge_evidence left right))
unfolding merge_evidence
merge_evidence_complete id left right h =
    let found : (e : DiscoveryEvidence) × In e (left ++ right) × (e.evidence_id ≡ id) = elim h [
      | inl i ↦ let (e, j, at) = In-ids id left i in (e, In-append e left right (inl j), at)
      | inr i ↦ let (e, j, at) = In-ids id right i in (e, In-append e left right (inr j), at)
    ] in
    let (e, i, at) = found in
    elim (unseen_complete (λ (x : DiscoveryEvidence). x.evidence_id) [] (left ++ right) e i) [
      | inl j ↦ subst (λ k. In k (evidence_ids (merge_evidence left right))) at j
      | inr j ↦ absurd j
    ]

-- The group of a key has the piece of evidence.
Kept : String → String → Dict Item → Type 0
Kept k id d = (group : Item) × (lookup k d ≡ some group) × In id (evidence_ids group.evidence)

module _ (key : Item → String)
    (same_key : (current item : Item) → key (absorb current item) ≡ key current) where
  group_in-IsKeyed :
      (item : Item) (d : Dict Item) → IsKeyed key d → IsKeyed key (group_in key item d)
  unfolding group_in
  group_in-IsKeyed item d h = elim (Option-cases (lookup (key item) d)) [
    | inl missing ↦ rw missing (put-IsKeyed key item d h)
    | inr (current, hit) ↦
        let at = same_key current item ∙ (lookup-IsKeyed key (key item) current d h hit).0 in
        let written = put-IsKeyed key (absorb current item) d h in
        rw hit (subst (λ k. IsKeyed key (put k (absorb current item) d)) at written)
  ]

  group_each-IsKeyed :
      (items : List Item) (d : Dict Item) → IsKeyed key d → IsKeyed key (group_each key items d)
  unfolding group_each
  group_each-IsKeyed [] d h = h
  group_each-IsKeyed (item ∷ items) d h =
      group_each-IsKeyed items (group_in key item d) (group_in-IsKeyed item d h)

  group_in-own :
      (item : Item) (id : String) (d : Dict Item)
      → In id (evidence_ids item.evidence)
      → Kept (key item) id (group_in key item d)
  unfolding group_in Kept absorb
  group_in-own item id d i = elim (Option-cases (lookup (key item) d)) [
    | inl missing ↦ rw missing (item, lookup-put (key item) item d, i)
    | inr (current, hit) ↦ rw hit (
      absorb current item,
      lookup-put (key item) (absorb current item) d,
      merge_evidence_complete id current.evidence item.evidence (inr i),
    )
  ]

  group_in-Kept :
      (item : Item) (k id : String) (d : Dict Item) → Kept k id d → Kept k id (group_in key item d)
  unfolding group_in Kept absorb
  group_in-Kept item k id d (group, found, i) = elim (text-cases k (key item)) [
    | inl same ↦
        let hit : lookup (key item) d ≡ some group = rw (← same) found in
        rw (hit, same)
          (
            absorb group item,
            lookup-put (key item) (absorb group item) d,
            merge_evidence_complete id group.evidence item.evidence (inl i),
          )
    | inr other ↦ elim (Option-cases (lookup (key item) d)) [
      | inl missing ↦ rw missing (group, lookup-put_other (key item) k item d other ∙ found, i)
      | inr (current, hit) ↦
          rw hit (group, lookup-put_other (key item) k (absorb current item) d other ∙ found, i)
    ]
  ]

  group_each-Kept :
      (items : List Item) (k id : String) (d : Dict Item)
      → Kept k id d
      → Kept k id (group_each key items d)
  unfolding group_each
  group_each-Kept [] k id d h = h
  group_each-Kept (item ∷ items) k id d h =
      group_each-Kept items k id (group_in key item d) (group_in-Kept item k id d h)

  group_each_complete :
      (items : List Item) (item : Item) (id : String) (d : Dict Item)
      → In item items
      → In id (evidence_ids item.evidence)
      → Kept (key item) id (group_each key items d)
  unfolding group_each
  group_each_complete [] item id d i h = absurd i
  group_each_complete (x ∷ items) item id d (inl same) h =
      let own = group_in-own item id d h in
      let kept = group_each-Kept items (key item) id (group_in key item d) own in
      subst (λ y. Kept (key item) id (group_each key items (group_in key y d))) same kept
  group_each_complete (x ∷ items) item id d (inr i) h =
      group_each_complete items item id (group_in key x d) i h

module _ (urlsplit : String → SplitUrl) (urlunsplit : String → String → String → String) where
  same_key :
      (current item : Item)
      → item_deduplication_key urlsplit urlunsplit (absorb current item)
        ≡ item_deduplication_key urlsplit urlunsplit current
  unfolding absorb item_deduplication_key
  same_key current item = refl

  keyed :
      (items : List Item)
      → IsKeyed
          (item_deduplication_key urlsplit urlunsplit)
          (group_each (item_deduplication_key urlsplit urlunsplit) items [])
  keyed items = group_each-IsKeyed (item_deduplication_key urlsplit urlunsplit) same_key items [] tt

  -- The groups have different keys.
  pub deduplicate-AreDistinct :
      (items : List Item)
      → AreDistinct
          (item_deduplication_key urlsplit urlunsplit)
          (deduplicate (item_deduplication_key urlsplit urlunsplit) items)
  unfolding deduplicate
  deduplicate-AreDistinct items = values-AreDistinct _ _ (keyed items)

  -- Each piece of evidence of an item is in a group that has the item's key.
  pub deduplicate_complete :
      (items : List Item) (item : Item) (id : String)
      → In item items
      → In id (evidence_ids item.evidence)
      → (group : Item) × In group (deduplicate (item_deduplication_key urlsplit urlunsplit) items)
        × (item_deduplication_key urlsplit urlunsplit group
            ≡ item_deduplication_key urlsplit urlunsplit item)
        × In id (evidence_ids group.evidence)
  unfolding deduplicate Kept
  deduplicate_complete items item id i h =
      let key = item_deduplication_key urlsplit urlunsplit in
      let (group, found, kept) = group_each_complete key same_key items item id [] i h in
      let (at, j) = lookup-IsKeyed key (key item) group _ (keyed items) found in
      (group, j, at, kept)
