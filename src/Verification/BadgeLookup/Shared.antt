-- ===== src/Verification/BadgeLookup/Shared.antt =====
-- A badge comes from a row that the result shares an identity with.
use discovery_application.Base.{
  ◌≡◌, refl, ◌∙◌, ◌⊎◌, String, Bool, true, Option, none, some, List, [], ◌∷◌, In, inl, inr, All,
  on_some_ind, if_ind, Option-cases, map,
}
use discovery_application.Verification.Models.{McpServerRecord}
use discovery_application.Verification.Registry.{Rows}
use discovery_application.Verification.BadgeLookup.{
  RankedResult, badge_info, find_last, find_first, first_hit, has_source_url, has_registry_name,
  has_identity, gather, select_badge_rows, item_identities, find_match, attach,
  attach_verification_badges,
}

find_last-some :
    (p : McpServerRecord → Bool) (rows : Rows) (r : McpServerRecord)
    → find_last p rows ≡ some r
    → In r rows × (p r ≡ true)
unfolding find_last
find_last-some p [] r h = cc
find_last-some p (x ∷ rows) r h =
    on_some_ind (λ (o : Option McpServerRecord). o ≡ some r → In r (x ∷ rows) × (p r ≡ true))
      (find_last p rows)
      (λ a hit same. let (i, e) = find_last-some p rows r (hit ∙ same) in (inr i, e))
      (λ _.
        if_ind (λ (o : Option McpServerRecord). o ≡ some r → In r (x ∷ rows) × (p r ≡ true)) (p x)
          (λ hit same. (inl (cc), cc)) (λ _ same. cc same))
      h

find_first-some :
    (p : McpServerRecord → Bool) (rows : Rows) (r : McpServerRecord)
    → find_first p rows ≡ some r
    → In r rows × (p r ≡ true)
unfolding find_first
find_first-some p [] r h = cc
find_first-some p (x ∷ rows) r h =
    if_ind (λ (o : Option McpServerRecord). o ≡ some r → In r (x ∷ rows) × (p r ≡ true)) (p x)
      (λ hit same. (inl (cc), cc))
      (λ _ same. let (i, e) = find_first-some p rows r same in (inr i, e)) h

first_hit-some :
    (find : String → Option McpServerRecord) (keys : List String) (r : McpServerRecord)
    → first_hit find keys ≡ some r
    → (key : String) × In key keys × (find key ≡ some r)
unfolding first_hit
first_hit-some find [] r h = cc h
first_hit-some find (key ∷ keys) r h =
    on_some_ind
      (λ (o : Option McpServerRecord).
        o ≡ some r → (k : String) × In k (key ∷ keys) × (find k ≡ some r))
      (find key) (λ a hit same. (key, inl refl, hit ∙ same))
      (λ _ same. let (k, i, e) = first_hit-some find keys r same in (k, inr i, e)) h

module _ (repo_identity : Option String → Option String) where
  -- The row and the result share a URL, a registry name, or the identity of a repository.
  pub Shares : McpServerRecord → RankedResult → Type 0
  Shares r result =
      let found = item_identities repo_identity result in
      ((key : String) × In key found.urls × (has_source_url key r ≡ true))
      ⊎ ((key : String) × In key found.names × (has_registry_name key r ≡ true))
      ⊎ ((key : String) × In key found.identities × (has_identity repo_identity key r ≡ true))

  find_match-Shares :
      (rows : Rows) (result : RankedResult) (r : McpServerRecord)
      → find_match repo_identity rows result ≡ some r
      → In r rows × Shares r result
  unfolding find_match Shares
  find_match-Shares rows result r h =
      let found = item_identities repo_identity result in
      on_some_ind (λ (o : Option McpServerRecord). o ≡ some r → In r rows × Shares r result)
        (first_hit (λ url. find_last (has_source_url url) rows) found.urls)
        (λ a hit same.
          let (key, i, e) = first_hit-some _ _ r (hit ∙ same) in
          let (row, own) = find_last-some _ rows r e in (row, inl (key, i, own)))
        (λ _.
          on_some_ind (λ (o : Option McpServerRecord). o ≡ some r → In r rows × Shares r result)
            (first_hit (λ name. find_last (has_registry_name name) rows) found.names)
            (λ a hit same.
              let (key, i, e) = first_hit-some _ _ r (hit ∙ same) in
              let (row, own) = find_last-some _ rows r e in (row, inr (inl (key, i, own))))
            (λ _ same.
              let (key, i, e) = first_hit-some _ _ r same in
              let (row, own) = find_first-some _ rows r e in (row, inr (inr (key, i, own)))))
        h

  -- The result has no badge, or the badge of one of the rows, with which it shares an identity.
  pub IsEarned : Rows → RankedResult → Type 0
  IsEarned rows result =
      (result.verification ≡ none)
      ⊎ ((r : McpServerRecord) × In r rows
          × (result.verification ≡ some (badge_info r))
          × Shares r result)

  attach-IsEarned :
      (rows : Rows) (result : RankedResult)
      → result.verification ≡ none
      → IsEarned rows (attach repo_identity rows result)
  unfolding attach IsEarned Shares item_identities
  attach-IsEarned rows result h = elim (Option-cases (find_match repo_identity rows result)) [
    | inl miss ↦ rw (attach, miss) (inl h)
    | inr (r, hit) ↦
        let (row, shared) = find_match-Shares rows result r hit in
        rw (attach, hit) (inr (r, row, refl, shared))
  ]

  attach-AreEarned :
      (rows : Rows) (results : List RankedResult)
      → All (λ result. result.verification ≡ none) results
      → All (IsEarned rows) (map (attach repo_identity rows) results)
  attach-AreEarned rows [] h = tt
  attach-AreEarned rows (result ∷ results) (h, hs) =
      (attach-IsEarned rows result h, attach-AreEarned rows results hs)

  -- The results after the lookup: by the rows that the database answered, or as they were.
  abbrev pub AreEarned : Option Rows → List RankedResult → List RankedResult → Type 0
  AreEarned none results out = out ≡ results
  AreEarned (some rows) results out = All (IsEarned rows) out

  -- The answer to the SELECT for the identities of the results.
  abbrev pub answered_rows :
      (List String → List String → List String → Option Rows)
      → (List String → List String)
      → List RankedResult
      → Option Rows
  answered_rows command sorted_set results =
      select_badge_rows command
        (sorted_set (gather (λ result. (item_identities repo_identity result).urls) results))
        (sorted_set (gather (λ result. (item_identities repo_identity result).names) results))
        (sorted_set (gather (λ result. (item_identities repo_identity result).identities) results))

  -- Where the database answers with some rows, results that had no badge have none afterwards or
  -- the badge of one of those rows, with which they share a URL, a registry name, or the identity
  -- of a repository; where it raises, no result changes.
  pub attach_verification_badges-AreEarned :
      (command : List String → List String → List String → Option Rows)
      (sorted_set : List String → List String) (results : List RankedResult)
      → All (λ result. result.verification ≡ none) results
      → AreEarned
          (answered_rows command sorted_set results)
          results
          (attach_verification_badges command repo_identity sorted_set results)
  unfolding attach_verification_badges
  attach_verification_badges-AreEarned command sorted_set results h =
      elim (Option-cases (answered_rows command sorted_set results)) [
        | inl raised ↦ rw raised refl
        | inr (rows, answered) ↦ rw answered (attach-AreEarned rows results h)
      ]
