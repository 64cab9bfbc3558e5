-- ===== src/Tracker/Reserved.antt =====
-- A tracker outside Git never owns what lies in `.git` or `.newgit`.
use newgit.Prelude.{
  ℕ, ◌≡◌, ◌≢◌, refl, ap, subst, inl, inr, true, false, ◌||◌, List, [], ◌∷◌, arith, ◌==◌, nat_eq,
  list_eq, Bool-cases, Option-cases, In, any-witness, any_of_In, In-append_left, is_prefix,
}
use newgit.Text.{Text, is_empty, split_on, onto_head}
use newgit.Error.{ok, ◌>>◌, >>-eq-ok}
use newgit.Paths.{
  Component, components, component_eq, relative_components, part_component, under, is_absolute,
}
use newgit.Tracker.{TrackerDefinition, is_dot, owns_everything, carved, owns}
use newgit.Tracker.Define.{
  definition_file, first_text, component_text, is_reserved, is_project, check_definition_file,
  check_path, check_paths, check_maintainers, check_audience, check_only_path, check_follow,
  checked_paths, validate,
}

check_paths-In :
    (d : TrackerDefinition) (path : Text) (paths : List Text)
    → In path paths
    → check_paths d paths ≡ ok tt
    → check_path d path ≡ ok tt
unfolding check_paths
check_paths-In d path [] m h = elim m [ ]
check_paths-In d path (p ∷ paths) (inl e) h =
    subst (λ q. check_path d q ≡ ok tt) e (>>-eq-ok (check_path d p) (check_paths d paths) h).0
check_paths-In d path (p ∷ paths) (inr m) h =
    check_paths-In d path paths m (>>-eq-ok (check_path d p) (check_paths d paths) h).1

validate-paths :
    (d : TrackerDefinition) (path : Text)
    → validate d ≡ ok tt
    → In path d.paths
    → check_path d path ≡ ok tt
unfolding validate
validate-paths d path h m =
    let last = check_paths d (checked_paths d) in
    let h₁ =
      >>-eq-ok (check_maintainers d d.maintainers)
        (check_audience d >> (check_only_path d >> (check_follow d >> last))) h in
    let h₂ = >>-eq-ok (check_audience d) (check_only_path d >> (check_follow d >> last)) h₁.1 in
    let h₃ = >>-eq-ok (check_only_path d) (check_follow d >> last) h₂.1 in
    let h₄ = >>-eq-ok (check_follow d) last h₃.1 in
    check_paths-In d path (checked_paths d) (In-append_left path d.paths _ m) h₄.1

definition_file-refused :
    (d : TrackerDefinition) (path file : Text)
    → carved d ≡ false
    → check_definition_file d path file ≢ ok tt
unfolding check_definition_file
definition_file-refused d path file c h = ground arith

-- A path that `check_path` lets through, of a tracker that is not carved.
check_path-plain :
    (d : TrackerDefinition) (path : Text)
    → carved d ≡ false
    → is_project d ≡ false
    → is_dot path ≡ false
    → check_path d path ≡ ok tt
    → (is_empty path ≡ false)
      × (is_absolute path ≡ false)
      × (is_reserved (first_text (components path)) ≡ false)
unfolding check_path
check_path-plain d path c p n h = elim (Option-cases (definition_file (components path))) [
  | inl e ↦ ground (arith, e)
  | inr (file, e) ↦ ground (arith, e, definition_file-refused d path file c)
]

relative_components-nonempty :
    (c : ℕ) (part : Text) (parts : List Text) → relative_components ((c ∷ part) ∷ parts) ≢ []
unfolding relative_components part_component
relative_components-nonempty c part parts h = ground arith

onto_head-nonempty : (c : ℕ) (parts : List Text) → relative_components (onto_head c parts) ≢ []
onto_head-nonempty c [] h = relative_components-nonempty c [] [] h
onto_head-nonempty c (part ∷ parts) h = relative_components-nonempty c part parts h

split_on-cons :
    (sep c : ℕ) (s : Text)
    → (c == sep) ≡ false
    → split_on sep (c ∷ s) ≡ onto_head c (split_on sep s)
unfolding split_on
split_on-cons sep c s h = rw h

components-nonempty :
    (path : Text) → is_empty path ≡ false → is_absolute path ≡ false → components path ≢ []
unfolding components
components-nonempty [] n a h = cc
components-nonempty (c ∷ path) n a h = onto_head-nonempty c (split_on b'/' path) (
    subst (λ parts. relative_components parts ≡ []) (split_on-cons b'/' c path (ground arith))
      (rw a at h))

first_text-is_prefix :
    (cs ds : List Component) → cs ≢ [] → is_prefix cs ds ≡ true → first_text cs ≡ first_text ds
first_text-is_prefix [] ds n h = absurd (n refl)
first_text-is_prefix (c ∷ cs) [] n h = cc
first_text-is_prefix (c ∷ cs) (e ∷ ds) n h =
    let same : c ≡ e = ground arith in ap component_text same

claim_not_dot :
    (d : TrackerDefinition) (claim : Text)
    → owns_everything d ≡ false
    → In claim d.paths
    → is_dot claim ≡ false
unfolding owns_everything
claim_not_dot d claim h m = elim (Bool-cases (is_dot claim)) [
  | inl e ↦ cc (h, any_of_In is_dot claim d.paths m e)
  | inr e ↦ e
]

outside_git : (d : TrackerDefinition) → d.git ≡ false → carved d ≡ false
unfolding carved
outside_git d h = rw h

under_lem :
    (path base : Text)
    → under path base ≡ true
    → is_prefix (components base) (components path) ≡ true
unfolding under
under_lem path base h = h

-- A tracker that passed `validate`, is kept out of Git, and claims neither everything nor the
-- project's own definitions, owns no path whose first part is `.git` or `.newgit`, in any case.
pub owns-reserved :
    (d : TrackerDefinition) (path : Text)
    → validate d ≡ ok tt
    → d.git ≡ false
    → is_project d ≡ false
    → owns_everything d ≡ false
    → is_reserved (first_text (components path)) ≡ true
    → owns d path ≡ false
unfolding owns
owns-reserved d path v g p e r = elim (Bool-cases (owns d path)) [
  | inr no_owner ↦ no_owner
  | inl o ↦
      let (claim, m, covers) = any-witness (λ q. is_dot q || under path q) d.paths (ground arith) in
      let not_dot = claim_not_dot d claim e m in
      let (ne, rel, plain) =
        check_path-plain d claim (outside_git d g) p not_dot (validate-paths d claim v m) in
      let first =
        first_text-is_prefix (components claim) (components path) (components-nonempty claim ne rel)
          (under_lem path claim (ground arith)) in
      cc (plain, r, ap is_reserved first)
]
