-- ===== src/Export/Closed.antt =====
-- crates/newgit-core/src/export.rs: an export fails closed.
use newgit.Prelude.{
  ◌≡◌, refl, subst, Bool, true, not, ◌&&◌, Option, none, some, List, [], ◌∷◌, ◌++◌, any, all, ◌==◌,
  list_eq, option_eq, nat_eq, arith, contains, ==-refl, In, any_of_In, Bool-cases, inl, inr,
}
use newgit.Prelude.Sort.{all-sort_by}
use newgit.Text.{Text}
use newgit.Error.{Result, ok, err, holds, holds->>=}
use newgit.Paths.{under, same_path}
use newgit.Tracker.{TrackerDefinition}
use newgit.Tracker.Resolve.{path_cmp}
use newgit.Export.{
  ExportFilter, ExportedFile, Workspace, source, public_tracker, forced, is_public, covers,
  collect_files, collect_one, collect_loop, refuse_link, plan_source, plan_tracker, plan_trackers,
  plan_included, plan_includes, plan,
}

module _ (w : Workspace) (source_files : List Text) (trackers : List TrackerDefinition)
    (filters : ExportFilter) where
  -- The tracker is public, has the name that the file is shipped for, and claims a path that the file lies under.
  abbrev pub ships : ExportedFile → TrackerDefinition → Bool
  ships f d = is_public d.audience && (some d.name == f.tracker && covers d.paths f.path)

  -- Why a file may leave: Git tracks it and it is there, a public tracker ships it, or an `--include` covers it.
  abbrev pub is_justified : ExportedFile → Bool
  is_justified f = elim f.reason [
    | source ↦ contains source_files f.path && w.is_file f.path
    | public_tracker ↦ any (ships f) trackers
    | forced ↦ covers filters.includes f.path
  ]

  abbrev pub may_leave : ExportedFile → Bool
  may_leave f = not (covers filters.excludes f.path) && is_justified f

  all-append :
      (fs gs : List ExportedFile)
      → all may_leave fs ≡ true
      → all may_leave gs ≡ true
      → all may_leave (fs ++ gs) ≡ true
  all-append [] gs h k = k
  all-append (f ∷ fs) gs h k = ground (arith, all-append fs gs)

  source_lem :
      (paths : List Text)
      → ((path : Text) → contains paths path ≡ true → contains source_files path ≡ true)
      → all may_leave (plan_source filters w.is_file paths).shipped ≡ true
  unfolding plan_source covers
  source_lem [] h = refl
  source_lem (path ∷ paths) h =
      let rest = source_lem paths (λ p m. h p (ground (arith, m))) in
      elim (Bool-cases (w.is_file path)) [
        | inl k ↦ elim (Bool-cases (covers filters.excludes path)) [
          | inl c ↦ rw (k, c) rest
          | inr c ↦ rw (k, c) (ground (arith, rest, h path (rw (==-refl path) refl)))
        ]
        | inr k ↦ rw k rest
      ]

  -- What a walk finds under one of some paths is covered by them.
  found_lem :
      (paths : List Text) (root : Text)
      → In root paths
      → ((root : Text) → holds (all (λ f. under f root)) (w.walk root) ≡ true)
      → holds (all (covers paths)) (collect_one w root) ≡ true
  unfolding collect_one covers
  found_lem paths root m h = refused (w.symlinked_parent root) (w.walk root) (h root)
    where
      each :
          (found : List Text)
          → all (λ f. under f root) found ≡ true
          → all (covers paths) found ≡ true
      each [] h = refl
      each (f ∷ found) h = ground (arith, any_of_In (under f) root paths m, each found)

      refused :
          (link : Option (Text × Text)) (r : Result (List Text))
          → holds (all (λ f. under f root)) r ≡ true
          → holds (all (covers paths)) (refuse_link root link r) ≡ true
      refused (some (link, target)) r h = refl
      refused none (ok found) h = each found h
      refused none (err e) h = refl

  all_texts-append :
      (p : Text → Bool) (xs ys : List Text)
      → all p xs ≡ true
      → all p ys ≡ true
      → all p (xs ++ ys) ≡ true
  all_texts-append p [] ys h k = k
  all_texts-append p (x ∷ xs) ys h k = ground (arith, all_texts-append p xs ys)

  loop_lem :
      (paths roots : List Text)
      → ((r : Text) → In r roots → In r paths)
      → ((root : Text) → holds (all (λ f. under f root)) (w.walk root) ≡ true)
      → holds (all (covers paths)) (collect_loop w roots) ≡ true
  unfolding collect_loop
  loop_lem paths [] s h = refl
  loop_lem paths (root ∷ roots) s h =
      holds->>= (all (covers paths)) _ (collect_one w root) _
        (found_lem paths root (s root (inl refl)) h)
        (λ found e c.
          holds->>= (all (covers paths)) _ (collect_loop w roots) _
            (loop_lem paths roots (λ r m. s r (inr m)) h)
            (λ rest e k. all_texts-append (covers paths) found rest c k))

  collected_lem :
      (paths roots : List Text)
      → ((r : Text) → In r roots → In r paths)
      → ((root : Text) → holds (all (λ f. under f root)) (w.walk root) ≡ true)
      → holds (all (covers paths)) (collect_files w roots) ≡ true
  unfolding collect_files
  collected_lem paths roots s h =
      holds->>= (all (covers paths)) _ (collect_loop w roots) _ (loop_lem paths roots s h)
        (λ found e k. rw (all-sort_by (covers paths) path_cmp found) k)

  tracker_lem :
      (d : TrackerDefinition) (found : List Text)
      → In d trackers
      → all (covers d.paths) found ≡ true
      → all may_leave (plan_tracker filters d found).shipped ≡ true
  unfolding plan_tracker
  tracker_lem d [] m h = refl
  tracker_lem d (relative ∷ found) m h =
      let rest = tracker_lem d found m (ground (arith, h)) in
      elim (Bool-cases (covers filters.excludes relative)) [
        | inl c ↦ rw c rest
        | inr c ↦ elim (Bool-cases (is_public d.audience)) [
          | inl k ↦
              let shipped =
                any_of_In
                  (ships
                    (record { path = relative; reason = public_tracker; tracker = some d.name }))
                  d trackers m (rw (k, ==-refl (some d.name)) (ground (arith, h))) in
              rw (c, k) (ground (arith, shipped, rest))
          | inr k ↦ elim (Bool-cases (covers filters.includes relative)) [
            | inl i ↦ rw (c, k, i) (ground (arith, rest))
            | inr i ↦ rw (c, k, i) rest
          ]
        ]
      ]

  trackers_lem :
      (ds : List TrackerDefinition)
      → ((d : TrackerDefinition) → In d ds → In d trackers)
      → ((root : Text) → holds (all (λ f. under f root)) (w.walk root) ≡ true)
      → holds (λ (files, dispositions, excluded). all may_leave files) (plan_trackers filters w ds)
        ≡ true
  unfolding plan_trackers
  trackers_lem [] s h = refl
  trackers_lem (d ∷ ds) s h =
      holds->>= (all (covers d.paths)) _ (collect_files w d.paths) _
        (collected_lem d.paths d.paths (λ r m. m) h)
        (λ found e c.
          holds->>= (λ (files, dispositions, excluded). all may_leave files) _
            (plan_trackers filters w ds) _ (trackers_lem ds (λ x m. s x (inr m)) h)
            (λ (files, dispositions, excluded) e k.
              all-append (plan_tracker filters d found).shipped files
                (tracker_lem d found (s d (inl refl)) c) k))

  included_lem :
      (files : List ExportedFile) (found : List Text)
      → all may_leave files ≡ true
      → all (covers filters.includes) found ≡ true
      → all may_leave (plan_included filters files found) ≡ true
  unfolding plan_included
  included_lem files [] h k = h
  included_lem files (relative ∷ found) h k = elim (Bool-cases (covers filters.excludes relative)) [
    | inl c ↦ rw c (included_lem files found h (ground (arith, k)))
    | inr c ↦ elim (Bool-cases (any (λ f. same_path f.path relative) files)) [
      | inl m ↦ rw (c, m) (included_lem files found h (ground (arith, k)))
      | inr m ↦
          rw (c, m)
            (included_lem
              (files ++ (record { path = relative; reason = forced; tracker = none } ∷ [])) found
              (all-append files (record { path = relative; reason = forced; tracker = none } ∷ []) h
                (ground (arith, c, k)))
              (ground (arith, k)))
    ]
  ]

  only :
      (include : Text)
      → In include filters.includes
      → (r : Text) → In r (include ∷ [])
      → In r filters.includes
  only include m r (inl e) = subst (λ x. In x filters.includes) e m
  only include m r (inr n) = absurd n

  includes_lem :
      (includes : List Text) (files : List ExportedFile)
      → ((i : Text) → In i includes → In i filters.includes)
      → ((root : Text) → holds (all (λ f. under f root)) (w.walk root) ≡ true)
      → all may_leave files ≡ true
      → holds (all may_leave) (plan_includes filters w includes files) ≡ true
  unfolding plan_includes
  includes_lem [] files s h k = k
  includes_lem (include ∷ includes) files s h k =
      holds->>= (all (covers filters.includes)) _ (collect_files w (include ∷ [])) _
        (collected_lem filters.includes (include ∷ []) (only include (s include (inl refl))) h)
        (λ found e c.
          includes_lem includes (plan_included filters files found) (λ i m. s i (inr m)) h
            (included_lem files found k c))

  -- Every file of a plan that `plan` returns is not excluded, and, according to its reason, is source that is there,
  -- or lies under a path that the public tracker it is shipped for claims, or is covered by an `--include`. A walk is
  -- taken to find only paths under its root.
  pub plan-may_leave :
      ((root : Text) → holds (all (λ f. under f root)) (w.walk root) ≡ true)
      → holds (λ p. all may_leave p.files) (plan w source_files trackers filters) ≡ true
  unfolding plan
  plan-may_leave h =
      holds->>= (λ (files, dispositions, excluded). all may_leave files) _
        (plan_trackers filters w trackers) _ (trackers_lem trackers (λ d m. m) h)
        (λ (tracked, dispositions, excluded) e k.
          holds->>= (all may_leave) _ (plan_includes filters w filters.includes _) _
            (includes_lem filters.includes _ (λ i m. m) h
              (all-append _ tracked (source_lem source_files (λ p m. m)) k))
            (λ files e t. rw (all-sort_by may_leave (λ f g. path_cmp f.path g.path) files) t))
