-- ===== src/Verification/UserTest/Badge.antt =====
-- A successful test leaves a verified row of the tested item.
use Prim.Native.String.{◌++◌ as str_append}
use text.Mathlib.TextPositions.{eq_refl}
use discovery_application.Base.{
  ℕ, ◌≤◌, ◌≡◌, refl, ◌∙◌, ap, arith, ◌⊎◌, Bool-cases, str_eq_iff, String, Bool, true, Option, none,
  some, List, [], ◌∷◌, ◌++◌, In, In-All, inl, inr, find?-some, on_some_ind, Option-cases, str_eq,
  if◌then◌else◌,
}
use discovery_application.Verification.Models.{McpServerRecord, Tool, Transport, ServerStatus}
use discovery_application.Verification.Timeouts.{text_or_empty}
use discovery_application.Verification.Registry.{
  Engine, IsEngine, Rows, first, get_by_registry_name, get_by_source_url, list_status, create,
  update, column_is,
}
use discovery_application.Verification.UserTest.{
  TestedItem, absent_if_empty, all_statuses, registry_names, success_of_test, new_record,
  same_identity, first_named, existing_row, transport_of_test, record_user_verified_success,
}

-- A row with the badge of a user test at the time `now`.
pub record IsUserVerified (via_auth : Bool) (now : ℕ) (r : McpServerRecord) : Type 0 where
  pub status : r.status ≡ ServerStatus.verified
  pub verified_badge : r.verified_badge ≡ true
  pub verified_via_auth : r.verified_via_auth ≡ via_auth
  pub quality_score : 90 ≤ r.quality_score
  pub last_verified_via : r.last_verified_via ≡ some "user_test"
  pub last_verified_at : r.last_verified_at ≡ some now

update-hit :
    (r : McpServerRecord) (change : McpServerRecord → McpServerRecord) (rows : Rows)
    → In r rows
    → In (change r) (update r.server_id change rows)
unfolding update
update-hit r change [] i = absurd i
update-hit r change (x ∷ rows) (inl e) = inl (rw (← e, eq_refl r.server_id) refl)
update-hit r change (x ∷ rows) (inr i) = inr (update-hit r change rows i)

success_of_test-IsUserVerified :
    (via_auth : Bool) (tools : List Tool) (transport : Transport)
    (existing : Option McpServerRecord) (now : ℕ) (row : McpServerRecord)
    → IsUserVerified via_auth now (success_of_test via_auth tools transport existing now row)
unfolding success_of_test
success_of_test-IsUserVerified via_auth tools transport existing now row = record {
  status = refl;
  verified_badge = refl;
  verified_via_auth = refl;
  quality_score = omega arith;
  last_verified_via = refl;
  last_verified_at = refl;
}

first-In : (xs : Rows) (r : McpServerRecord) → first xs ≡ some r → In r xs
first-In [] r h = cc
first-In (x ∷ xs) r h = inl (cc)

last-In : (r : McpServerRecord) (rows : Rows) → In r (rows ++ r ∷ [])
last-In r [] = inl refl
last-In r (x ∷ rows) = inr (last-In r rows)

column_text : (o : Option String) (s : String) → column_is o s ≡ true → o ≡ some s
column_text none s h = cc h
column_text (some a) s h = ap (λ b. some b) ((str_eq_iff a s).0 h)

-- The URL under which a row of the item is stored.
abbrev pub item_url : TestedItem → String
item_url item =
    let source_url = text_or_empty item.source_url in
    if str_eq source_url "" then str_append "user-test:" item.item_id else source_url

-- The row is the item's: by one of its registry names, by its URL, or by the identity of its
-- repository.
abbrev pub BelongsTo : (Option String → Option String) → TestedItem → McpServerRecord → Type 0
BelongsTo repo_identity item r =
    ((name : String) × In name (registry_names item) × (r.registry_name ≡ some name))
    ⊎ (r.source_url ≡ item_url item)
    ⊎ ((identity : String) × (repo_identity (absent_if_empty (text_or_empty item.source_url))
          ≡ some identity)
        × (same_identity identity (repo_identity r.repository_url) ≡ true))

module _ {db : Engine McpServerRecord} (law : IsEngine db)
    (repo_identity : Option String → Option String) where
  selected :
      (p : McpServerRecord → Bool) (n : ℕ) (rows : Rows) (r : McpServerRecord)
      → In r (db.select p n rows)
      → (p r ≡ true) × In r rows
  selected p n rows r i = In-All _ _ (law.sound p n rows) i

  by_url-In :
      (url : String) (rows : Rows) (r : McpServerRecord)
      → get_by_source_url db url rows ≡ some r
      → In r rows × (r.source_url ≡ url)
  unfolding get_by_source_url
  by_url-In url rows r e =
      let (holds, row) = selected _ 1 rows r (first-In _ r e) in (row, (str_eq_iff _ _).0 holds)

  first_named-In :
      (names : List String) (rows : Rows) (r : McpServerRecord)
      → first_named db repo_identity names rows ≡ some r
      → In r rows × (name : String) × In name names × (r.registry_name ≡ some name)
  unfolding first_named get_by_registry_name
  first_named-In [] rows r e = cc e
  first_named-In (name ∷ names) rows r e = elim (Option-cases (get_by_registry_name db name rows)) [
    | inl miss ↦
        let (row, own, i, named) = first_named-In names rows r (rw miss at e) in
        (row, own, inr i, named)
    | inr (found, hit) ↦
        let same : some found ≡ some r = rw hit at e in
        let (holds, row) = selected _ 1 rows r (first-In _ r (hit ∙ same)) in
        (row, name, inl refl, column_text _ _ holds)
  ]

  create-In :
      (r : McpServerRecord) (rows : Rows)
      → In (create db r rows).0 (create db r rows).1
        × ((create db r rows).0.source_url ≡ r.source_url)
  unfolding create
  create-In r rows = elim (Option-cases (get_by_source_url db r.source_url rows)) [
    | inl miss ↦ rw (create, miss) (last-In r rows, refl)
    | inr (x, hit) ↦ rw (create, hit) (by_url-In r.source_url rows x hit)
  ]

  -- A row of the table that is the item's, where there is one.
  abbrev Found : TestedItem → Rows → Option McpServerRecord → Type 0
  Found item rows o =
      (r : McpServerRecord) → o ≡ some r → In r rows × BelongsTo repo_identity item r

  existing_row-Found :
      (item : TestedItem) (rows : Rows) → Found item rows (existing_row db repo_identity item rows)
  unfolding existing_row list_status
  existing_row-Found item rows =
      let source_url = text_or_empty item.source_url in
      on_some_ind (Found item rows) (first_named db repo_identity (registry_names item) rows)
        (λ a hit r same.
          let (row, name, i, named) = first_named-In (registry_names item) rows r (hit ∙ same) in
          (row, inl (name, i, named)))
        (λ _.
          on_some_ind (Found item rows)
            (if str_eq source_url "" then none else get_by_source_url db source_url rows)
            (λ a hit r same. elim (Bool-cases (str_eq source_url "")) [
              | inl blank ↦ cc (rw blank at (hit ∙ same))
              | inr filled ↦
                  let (row, own) = by_url-In source_url rows r (rw filled at (hit ∙ same)) in
                  (row, rw filled (inr (inl own)))
            ])
            (λ _.
              on_some_ind (Found item rows) (repo_identity (absent_if_empty source_url))
                (λ identity known r hit.
                  let (listed, own) = find?-some _ (list_status db all_statuses 500 rows) r hit in
                  ((selected _ 500 rows r listed).1, inr (inr (identity, known, own))))
                (λ _ r none_found. cc none_found)))

  new_url :
      (new_id : String) (item : TestedItem) (via_auth : Bool) (tools : List Tool)
      (transport : Transport) (now : ℕ)
      → (new_record new_id item via_auth tools transport now).source_url ≡ item_url item
  unfolding new_record
  new_url new_id item via_auth tools transport now = refl

  -- Over a database that keeps the promises of SELECT, a successful test by a user leaves the table
  -- with a row that belongs to the tested item, by a registry name, its URL or the identity of its
  -- repository, and that is verified by this test at this time, holds the badge with how it was
  -- earned, and scores 90 or more.
  pub record_user_verified_success-IsUserVerified :
      (new_id : String) (item : TestedItem) (via_auth : Bool) (tools : List Tool) (now : ℕ)
      (rows : Rows)
      → (r : McpServerRecord) × In r
          (record_user_verified_success db repo_identity new_id item via_auth tools now rows)
        × BelongsTo repo_identity item r
        × IsUserVerified via_auth now r
  unfolding record_user_verified_success success_of_test
  record_user_verified_success-IsUserVerified new_id item via_auth tools now rows =
      elim (Option-cases (existing_row db repo_identity item rows)) [
        | inl missing ↦
            let transport = transport_of_test db repo_identity item none in
            let fresh = new_record new_id item via_auth tools transport now in
            let made = create db fresh rows in
            let (row, url) = create-In fresh rows in
            let change = success_of_test via_auth tools transport none now in
            rw (record_user_verified_success, missing)
              (
                change made.0,
                update-hit made.0 change made.1 row,
                inr (inl (url ∙ new_url new_id item via_auth tools transport now)),
                success_of_test-IsUserVerified via_auth tools transport none now made.0,
              )
        | inr (r, hit) ↦
            let transport = transport_of_test db repo_identity item (some r) in
            let change = success_of_test via_auth tools transport (some r) now in
            let (row, own) = existing_row-Found item rows r hit in
            rw (record_user_verified_success, hit)
              (
                change r,
                update-hit r change rows row,
                own,
                success_of_test-IsUserVerified via_auth tools transport (some r) now r,
              )
      ]
