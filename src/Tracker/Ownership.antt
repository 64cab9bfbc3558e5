-- ===== src/Tracker/Ownership.antt =====
-- crates/newgit-core/src/tracker.rs: which tracker owns a path.
use Prim.Native.Nat.{compare, Ordering}
use newgit.Prelude.{
  ℕ, Bool, ◌&&◌, ◌||◌, Option, none, some, List, [], ◌∷◌, map, any, filter, filter_map, length,
  ◌==◌, nat_eq, list_eq, if◌then◌else◌, ltb,
}
use newgit.Prelude.Sort.{is_gt}
use newgit.Text.{Text, cmp}
use newgit.Paths.{components, under}
use newgit.Tracker.{TrackerDefinition, is_dot}

-- `mount_holds`
unfoldable pub mount_holds : Text → Text → Bool
mount_holds mount path = is_dot mount || under path mount

unfoldable pub mount_depth : Text → ℕ
mount_depth mount = if is_dot mount then 0 else length (components mount)

-- `iter().max()` on numbers
abbrev pub max_of : List ℕ → Option ℕ
max_of [] = none
max_of (n ∷ ns) = elim (max_of ns) [ none ↦ some n | some m ↦ some (if ltb m n then n else m) ]

unfoldable pub claim_on : TrackerDefinition → Text → Option ℕ
claim_on d path =
    if any (λ excluded. under path excluded) d.exclusions
    then none
    else max_of (
        map (λ claim. if is_dot claim then 0 else length claim)
          (filter (λ claim. is_dot claim || under path claim) d.paths))

-- The order of `owner_of`'s `max_by`: the longer claim, then the smaller name.
unfoldable pub claim_order : ℕ × TrackerDefinition → ℕ × TrackerDefinition → Ordering
claim_order (left, a) (right, b) = elim (compare left right) [
  | Ordering.lt ↦ Ordering.lt
  | Ordering.eq ↦ cmp b.name a.name
  | Ordering.gt ↦ Ordering.gt
]

-- `iter().max_by(order)`: of equals the last.
unfoldable pub max_by_from {ℓ} : {A : Type ℓ} → (A → A → Ordering) → A → List A → A
max_by_from order best [] = best
max_by_from order best (x ∷ xs) = max_by_from order (if is_gt (order best x) then best else x) xs

unfoldable pub max_by {ℓ} : {A : Type ℓ} → (A → A → Ordering) → List A → Option A
max_by order [] = none
max_by order (x ∷ xs) = some (max_by_from order x xs)

unfoldable pub deepest_mount : List TrackerDefinition → Text → Option ℕ
deepest_mount definitions path =
    max_of (map (λ d. mount_depth d.mount) (filter (λ d. mount_holds d.mount path) definitions))

abbrev pub claim_by : Text → TrackerDefinition → Option (ℕ × TrackerDefinition)
claim_by path d = elim (claim_on d path) [ none ↦ none | some claim ↦ some (claim, d) ]

abbrev pub mounted_at : ℕ → Text → TrackerDefinition → Bool
mounted_at deepest path d = mount_holds d.mount path && mount_depth d.mount == deepest

unfoldable pub claimants : ℕ → List TrackerDefinition → Text → List (ℕ × TrackerDefinition)
claimants deepest definitions path =
    filter_map (claim_by path) (filter (mounted_at deepest path) definitions)

-- `.map(|(_, definition)| definition)`
abbrev pub claimant : Option (ℕ × TrackerDefinition) → Option TrackerDefinition
claimant none = none
claimant (some (claim, d)) = some d

abbrev pub owner_at : Option ℕ → (ℕ → Option (ℕ × TrackerDefinition)) → Option TrackerDefinition
owner_at none best = none
owner_at (some deepest) best = claimant (best deepest)

unfoldable pub owner_of : List TrackerDefinition → Text → Option TrackerDefinition
owner_of definitions path =
    owner_at (deepest_mount definitions path)
      (λ deepest. max_by claim_order (claimants deepest definitions path))
