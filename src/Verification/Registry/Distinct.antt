-- ===== src/Verification/Registry/Distinct.antt =====
-- No two rows share a source URL.
use discovery_application.Base.{
  ◌<◌, ◌≡◌, ◌≢◌, refl, sym, ◌∙◌, String, none, some, List, [], ◌∷◌, ◌++◌, length, All, In, inl, inr,
  arith, str_eq, str_eq_iff, if◌then◌else◌, Option-cases, All-append, All-In, subst, Bool-cases,
}
use discovery_application.Verification.Models.{McpServerRecord}
use discovery_application.Verification.Registry.{
  Engine, IsEngine, Rows, first, get_by_source_url, create, update,
}

-- No row but the head has its source URL.
abbrev pub IsDistinct : Rows → Type 0
IsDistinct [] = Unit {0}
IsDistinct (r ∷ rows) = All (λ s. s.source_url ≢ r.source_url) rows × IsDistinct rows

module _ (url : String) where
  abbrev Differs : Rows → Type 0
  Differs = All (λ s. s.source_url ≢ url)

pub IsDistinct-append :
    (rows : Rows) (r : McpServerRecord)
    → IsDistinct rows
    → Differs r.source_url rows
    → IsDistinct (rows ++ r ∷ [])
IsDistinct-append [] r d h = (tt, tt)
IsDistinct-append (s ∷ rows) r (ds, d) (h, hs) =
    (All-append _ rows (r ∷ []) ds ((λ e. h (sym e)), tt), IsDistinct-append rows r d hs)

nil_of_first : {A : Type 0} (xs : List A) → first xs ≡ none → xs ≡ []
nil_of_first [] h = refl
nil_of_first (x ∷ xs) h = cc

module _ {db : Engine McpServerRecord} (law : IsEngine db) where
  -- A URL that the lookup misses is on no row.
  pub Differs_of_miss :
      (url : String) (rows : Rows)
      → get_by_source_url db url rows ≡ none
      → All (λ s. s.source_url ≢ url) rows
  unfolding get_by_source_url
  Differs_of_miss url rows miss =
      let is_url = λ (r : McpServerRecord). str_eq r.source_url url in
      let empty : db.select is_url 1 rows ≡ [] = nil_of_first _ miss in
      let short : length (db.select is_url 1 rows) < 1 = rw empty (omega arith) in
      All-In (λ s. s.source_url ≢ url) rows
        λ s i e.
          subst (λ found. In s found) empty
            (law.complete is_url 1 rows short s i ((str_eq_iff s.source_url url).1 e))

  pub create_miss :
      (r : McpServerRecord) (rows : Rows)
      → get_by_source_url db r.source_url rows ≡ none
      → create db r rows ≡ (r, rows ++ r ∷ [])
  unfolding create
  create_miss r rows h = rw (h, create)

  pub create_hit :
      (r old : McpServerRecord) (rows : Rows)
      → get_by_source_url db r.source_url rows ≡ some old
      → create db r rows ≡ (old, rows)
  unfolding create
  create_hit r old rows h = rw (h, create)

  -- `create` keeps the URLs distinct: it appends only a URL that the table lacks.
  pub create-IsDistinct :
      (r : McpServerRecord) (rows : Rows) → IsDistinct rows → IsDistinct (create db r rows).1
  create-IsDistinct r rows d = elim (Option-cases (get_by_source_url db r.source_url rows)) [
    | inl miss ↦
        rw (create_miss r rows miss)
          (IsDistinct-append rows r d (Differs_of_miss r.source_url rows miss))
    | inr (old, hit) ↦ rw (create_hit r old rows hit) d
  ]

-- An update that leaves the source URL alone keeps the URLs distinct.
module _ (server_id : String) (change : McpServerRecord → McpServerRecord)
    (keeps : (r : McpServerRecord) → (change r).source_url ≡ r.source_url) where
  changed-source_url :
      (r : McpServerRecord)
      → (if str_eq r.server_id server_id then change r else r).source_url ≡ r.source_url
  changed-source_url r = elim (Bool-cases (str_eq r.server_id server_id)) [
    | inl e ↦ rw e (keeps r)
    | inr e ↦ rw e
  ]

  update-Differs :
      (url : String) (rows : Rows)
      → All (λ s. s.source_url ≢ url) rows
      → All (λ s. s.source_url ≢ url) (update server_id change rows)
  unfolding update
  update-Differs url [] h = tt
  update-Differs url (r ∷ rows) (h, hs) =
      ((λ e. h (sym (changed-source_url r) ∙ e)), update-Differs url rows hs)

  pub update-IsDistinct :
      (rows : Rows) → IsDistinct rows → IsDistinct (update server_id change rows)
  unfolding update
  update-IsDistinct [] d = tt
  update-IsDistinct (r ∷ rows) (h, d) = (
    subst (λ url. All (λ s. s.source_url ≢ url) (update server_id change rows))
        (sym (changed-source_url r)) (update-Differs r.source_url rows h),
    update-IsDistinct rows d,
  )
