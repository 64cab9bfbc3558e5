-- ===== src/Export/Accounts.antt =====
-- crates/newgit-core/src/export.rs: a plan accounts for the source files.
use newgit.Prelude.{
  ◌≡◌, refl, ap, ◌∙◌, Bool, true, ◌||◌, List, [], ◌∷◌, ◌++◌, any, any-append, ◌==◌, list_eq, nat_eq,
  ==-refl, arith, contains, Bool-cases, inl, inr, none,
}
use newgit.Prelude.Sort.{sort_by, any-sort_by, dedup_by, any-dedup_by}
use newgit.Text.{Text}
use newgit.Error.{holds, holds->>=, holds-true}
use newgit.Paths.{same_path, components, component_eq}
use newgit.Tracker.{TrackerDefinition}
use newgit.Tracker.Resolve.{path_cmp}
use newgit.Export.{
  ExportFilter, ExportedFile, ExportPlan, Workspace, forced, covers, collect_files, plan_source,
  plan_trackers, plan_included, plan_includes, plan,
}

module _ (path : Text) where
  abbrev is_at : ExportedFile → Bool
  is_at f = same_path f.path path

  abbrev is_same : Text → Bool
  is_same e = same_path e path

  -- The path stands in the plan: among its files or its excluded paths.
  abbrev pub accounts_for : ExportPlan → Bool
  accounts_for p = any is_at p.files || any is_same p.excluded

  same_path_lem : (x y : Text) → same_path y x ≡ true → is_same x ≡ is_same y
  unfolding same_path
  same_path_lem x y h = ground (arith, h)

  source_lem :
      (w : Workspace) (filters : ExportFilter) (paths : List Text)
      → contains paths path ≡ true
      → w.is_file path ≡ true
      → (any is_at (plan_source filters w.is_file paths).shipped
          || any is_same (plan_source filters w.is_file paths).dropped)
        ≡ true
  unfolding plan_source same_path
  source_lem w filters [] h k = cc
  source_lem w filters (p ∷ paths) h k = elim (Bool-cases (p == path)) [
    | inl e ↦ elim (Bool-cases (covers filters.excludes p)) [
      | inl c ↦ rw (file_lem e, c) (ground (arith, same_lem e))
      | inr c ↦ rw (file_lem e, c) (ground (arith, same_lem e))
    ]
    | inr e ↦
        let rest = source_lem w filters paths (ground (arith, h, e)) k in
        elim (Bool-cases (w.is_file p)) [
          | inl f ↦ elim (Bool-cases (covers filters.excludes p)) [
            | inl c ↦ rw (f, c) (ground (arith, rest))
            | inr c ↦ rw (f, c) (ground (arith, rest))
          ]
          | inr f ↦ rw f rest
        ]
  ]
    where
      path_lem : (p == path) ≡ true → p ≡ path
      path_lem e = ground (arith, e)

      file_lem : (p == path) ≡ true → w.is_file p ≡ true
      file_lem e = ap w.is_file (path_lem e) ∙ k

      same_lem : (p == path) ≡ true → same_path p path ≡ true
      same_lem e = ap is_same (path_lem e) ∙ ==-refl (components path)

  included_lem :
      (filters : ExportFilter) (files : List ExportedFile) (found : List Text)
      → any is_at files ≡ true
      → any is_at (plan_included filters files found) ≡ true
  unfolding plan_included
  included_lem filters files [] h = h
  included_lem filters files (relative ∷ found) h =
      elim (Bool-cases
        (covers filters.excludes relative || any (λ f. same_path f.path relative) files)) [
          | inl c ↦ rw c (included_lem filters files found h)
          | inr c ↦ rw c (
              included_lem filters _ found (
                rw
                  (
                    any-append is_at files
                        (record { path = relative; reason = forced; tracker = none } ∷ []),
                    h,
                  )
                  refl))
        ]

  includes_lem :
      (w : Workspace) (filters : ExportFilter) (includes : List Text) (files : List ExportedFile)
      → any is_at files ≡ true
      → holds (any is_at) (plan_includes filters w includes files) ≡ true
  unfolding plan_includes
  includes_lem w filters [] files h = h
  includes_lem w filters (include ∷ includes) files h =
      holds->>= (λ found. true) _ (collect_files w (include ∷ [])) _
        (holds-true (collect_files w (include ∷ [])))
        (λ found e t.
          includes_lem w filters includes (plan_included filters files found)
            (included_lem filters files found h))

  -- A source file that is there is not lost: every plan that `plan` returns has its path among its
  -- files or among its excluded paths.
  pub plan-accounts_for :
      (w : Workspace) (source_files : List Text) (trackers : List TrackerDefinition)
      (filters : ExportFilter)
      → contains source_files path ≡ true
      → w.is_file path ≡ true
      → holds accounts_for (plan w source_files trackers filters) ≡ true
  unfolding plan
  plan-accounts_for w source_files trackers filters h k =
      let sources = plan_source filters w.is_file source_files in
      let found = source_lem w filters source_files h k in
      holds->>= (λ r. true) _ (plan_trackers filters w trackers) _
        (holds-true (plan_trackers filters w trackers))
        (λ (tracked, dispositions, excluded) e t. elim (Bool-cases (any is_at sources.shipped)) [
          | inl s ↦
              holds->>= (any is_at) _
                (plan_includes filters w filters.includes (sources.shipped ++ tracked)) _
                (includes_lem w filters filters.includes (sources.shipped ++ tracked)
                  (rw (any-append is_at sources.shipped tracked, s) refl))
                (λ files e m. rw (any-sort_by is_at (λ f g. path_cmp f.path g.path) files, m) refl)
          | inr s ↦
              holds->>= (λ r. true) _
                (plan_includes filters w filters.includes (sources.shipped ++ tracked)) _
                (holds-true (plan_includes filters w filters.includes (sources.shipped ++ tracked)))
                (λ files e m. kept files sources.dropped excluded (ground (arith, found, s)))
        ])
    where
      kept :
          (files : List ExportedFile) (dropped excluded : List Text)
          → any is_same dropped ≡ true
          → (any is_at (sort_by (λ f g. path_cmp f.path g.path) files)
              || any is_same (dedup_by same_path (sort_by path_cmp (dropped ++ excluded))))
            ≡ true
      kept files dropped excluded d =
          rw
            (
              any-dedup_by is_same same_path same_path_lem (sort_by path_cmp (dropped ++ excluded)),
              any-sort_by is_same path_cmp (dropped ++ excluded),
              any-append is_same dropped excluded,
              d,
            )
            (ground arith)
