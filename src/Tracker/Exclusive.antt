-- ===== src/Tracker/Exclusive.antt =====
-- After `resolve_ownership`, no path has two owners.
use newgit.Prelude.{
  ◌≡◌, ◌≢◌, subst, subst₂, sym, ◌∙◌, inl, inr, true, false, ◌||◌, List, filter, arith, nat_eq,
  list_eq, Bool-cases, In, any-witness, In-map_witness,
}
use newgit.Text.{Text}
use newgit.Error.{ok, >>-eq-ok, ok-injective}
use newgit.Paths.{under, component_eq}
use newgit.Tracker.{TrackerDefinition, is_dot, owns_everything, owns}
use newgit.Tracker.Resolve.{
  same_role, check_pairs, check_roots, all_claims, all_mounts, with_excluded, fill_excluded,
  resolve_ownership,
}
use newgit.Tracker.Taken.{
  Disjoint, same_path_symm, check_pairs-Disjoint, taken, comparable, owns-excluded,
}

claim_of_owned :
    (d : TrackerDefinition) (path : Text)
    → owns d path ≡ true
    → (claim : Text) × In claim d.paths × ((is_dot claim || under path claim) ≡ true)
unfolding owns
claim_of_owned d path h = any-witness _ d.paths (ground arith)

module _ (definitions : List TrackerDefinition) where
  abbrev settle : TrackerDefinition → TrackerDefinition
  settle = with_excluded (all_claims definitions) (all_mounts definitions)

  settle-owns :
      (left right : TrackerDefinition) (path : Text)
      → In left definitions
      → In right definitions
      → left.name ≢ right.name
      → Disjoint left right
      → owns (settle left) path ≡ true
      → owns (settle right) path ≡ false
  unfolding with_excluded
  settle-owns left right path m n ne apart h = elim (Bool-cases (owns (settle right) path)) [
    | inr no_right ↦ no_right
    | inl e ↦
        let (l, ml, cl) = claim_of_owned (settle left) path h in
        let (r, mr, cr) = claim_of_owned (settle right) path e in
        elim (comparable path l r cl cr (apart l r ml mr)) [
          | inl (dr, i, u) ↦ cc (
            h,
            owns-excluded left _ path
                (taken definitions left right r l path n mr (λ q. ne (sym q)) dr ml i u),
          )
          | inr (dl, i, u) ↦
              owns-excluded right _ path (taken definitions right left l r path m ml ne dl mr i u)
        ]
  ]

abbrev Exclusive : Text → TrackerDefinition → TrackerDefinition → Type 0
Exclusive path left right =
    left.name ≢ right.name
    → same_role left.role right.role ≡ false
    → owns left path ≡ true
    → owns right path ≡ false

settle-Exclusive :
    (definitions : List TrackerDefinition) (l r : TrackerDefinition) (path : Text)
    → In l definitions
    → In r definitions
    → check_pairs definitions ≡ ok tt
    → Exclusive path (settle definitions l) (settle definitions r)
unfolding with_excluded
settle-Exclusive definitions l r path m n checked ne role o =
    elim (check_pairs-Disjoint l r definitions m n ne role checked) [
      | inl apart ↦ settle-owns definitions l r path m n ne apart o
      | inr apart ↦
          settle-owns definitions l r path m n ne
            (λ p q mp mq. same_path_symm q p ∙ apart q p mq mp) o
    ]

-- After `resolve_ownership` a path has one owner at most: of two trackers with different names that
-- are not alternatives in one role, only one owns it.
pub owns-resolve_ownership :
    (definitions resolved : List TrackerDefinition) (left right : TrackerDefinition) (path : Text)
    → resolve_ownership definitions ≡ ok resolved
    → In left resolved
    → In right resolved
    → left.name ≢ right.name
    → same_role left.role right.role ≡ false
    → owns left path ≡ true
    → owns right path ≡ false
unfolding resolve_ownership
owns-resolve_ownership definitions resolved left right path h m n ne role o =
    let (roots, after) = >>-eq-ok (check_roots (filter owns_everything definitions)) _ h in
    let (pairs, filled) =
      >>-eq-ok (check_pairs definitions) (ok (fill_excluded definitions)) after in
    let (l, ml, el) =
      In-map_witness (settle definitions) left definitions
        (subst (In left) (sym (ok-injective filled)) m) in
    let (r, mr, er) =
      In-map_witness (settle definitions) right definitions
        (subst (In right) (sym (ok-injective filled)) n) in
    subst₂ (Exclusive path) el er (settle-Exclusive definitions l r path ml mr pairs) ne role o
