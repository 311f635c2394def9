-- ===== src/Search/Application/Merge.antt =====
-- The merged shortlist.
use discovery_application.Base.{
  ◌≡◌, refl, arith, String, Bool, true, false, Option, List, [], ◌∷◌, All, Dict, lookup, put,
  values, is_some, is_nil, any,
}
use discovery_application.Search.Application.{
  Item, Merged, cache_key, item_repo_identities, is_owned, claim, claim_each, merge_items,
}

module _ (repo_identity : String → Option String) where
  claim_each-owned :
      (xs : List Item) (m : Merged)
      → All (λ x. is_owned repo_identity x m ≡ true) xs
      → claim_each repo_identity true xs m ≡ m
  unfolding claim_each claim
  claim_each-owned [] m h = refl
  claim_each-owned (x ∷ xs) m (owned, rest) = rw owned (claim_each-owned xs m rest)

  -- A live item of a repository that a catalog item claimed changes nothing, even if it has the
  -- identity key of that item.
  pub merge_items-owned :
      (cached live : List Item)
      → All
          (λ x.
            is_owned repo_identity x
              (claim_each repo_identity false cached (record { items = []; repo_owner = [] }))
            ≡ true)
          live
      → merge_items repo_identity cached live ≡ merge_items repo_identity cached []
  unfolding merge_items
  merge_items-owned cached live h = rw (claim_each-owned live _ h)

  put-not_nil : (key : String) (x : Item) (d : Dict Item) → is_nil (put key x d) ≡ false
  put-not_nil key x [] = refl
  put-not_nil key x ((k, y) ∷ d) = ground arith

  claim-not_nil :
      (prefer_new : Bool) (x : Item) (m : Merged)
      → is_nil m.items ≡ false
      → is_nil (claim repo_identity prefer_new x m).items ≡ false
  unfolding claim
  claim-not_nil prefer_new x m h = ground (arith, put-not_nil (cache_key x) x m.items)

  claim_each-not_nil :
      (prefer_new : Bool) (xs : List Item) (m : Merged)
      → is_nil m.items ≡ false
      → is_nil (claim_each repo_identity prefer_new xs m).items ≡ false
  unfolding claim_each
  claim_each-not_nil prefer_new [] m h = h
  claim_each-not_nil prefer_new (x ∷ xs) m h =
      claim_each-not_nil prefer_new xs (claim repo_identity prefer_new x m)
        (claim-not_nil prefer_new x m h)

  unowned : (ids : List String) → any (λ id. is_some (lookup {V = String} id [])) ids ≡ false
  unowned [] = refl
  unowned (id ∷ ids) = unowned ids

  first_claim :
      (x : Item)
      → is_nil (claim repo_identity false x (record { items = []; repo_owner = [] })).items ≡ false
  unfolding claim is_owned
  first_claim x = rw (unowned (item_repo_identities repo_identity x))

  values-not_nil : (d : Dict Item) → is_nil d ≡ false → is_nil (values d) ≡ false
  values-not_nil [] h = cc
  values-not_nil (e ∷ d) h = refl

  -- The merge of a catalog that has an item is not empty, whatever live discovery found.
  pub merge_items-not_nil :
      (x : Item) (cached live : List Item)
      → is_nil (merge_items repo_identity (x ∷ cached) live) ≡ false
  unfolding merge_items claim_each
  merge_items-not_nil x cached live =
      values-not_nil _
        (claim_each-not_nil true live _ (claim_each-not_nil false cached _ (first_claim x)))
