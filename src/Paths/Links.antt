-- ===== src/Paths/Links.antt =====
-- `link_target_inside` (crates/newgit-core/src/tracker.rs): whether a symlink's text keeps it in the
-- tree that it is stored in.
use newgit.Prelude.{
  ℕ, zero, suc, ◌+◌, ◌≤◌, ◌≡◌, ◌↔◌, refl, Bool, true, false, not, Option, none, some, List, [], ◌∷◌,
  arith, length, all, if◌then◌else◌,
}
use newgit.Text.{Text, is_empty}
use newgit.Paths.{Component, root_dir, cur_dir, parent_dir, normal, components}
use newgit.Paths.Parts.{names}

-- `path.parent()` as components: all but the last, unless that is the root or missing.
abbrev without_last : Component → List Component → List Component
without_last c [] = []
without_last c (d ∷ cs) = c ∷ without_last d cs

unfoldable pub parent_components : List Component → Option (List Component)
parent_components [] = none
parent_components (root_dir ∷ []) = none
parent_components (c ∷ cs) = some (without_last c cs)

abbrev pub parent_names : Option (List Component) → List Text
parent_names none = []
parent_names (some cs) = names cs

-- The loop over the target's components; the top of the stack is its head.
unfoldable pub climb_loop : List Text → List Component → Bool
climb_loop depth [] = true
climb_loop depth (cur_dir ∷ rest) = climb_loop depth rest
climb_loop depth (normal part ∷ rest) = climb_loop (part ∷ depth) rest
climb_loop [] (parent_dir ∷ rest) = false
climb_loop (part ∷ depth) (parent_dir ∷ rest) = climb_loop depth rest
climb_loop depth (root_dir ∷ rest) = false

unfoldable pub link_target_inside : Text → Text → Bool
link_target_inside link target =
    if is_empty target
    then false
    else climb_loop (parent_names (parent_components (components link))) (components target)

-- The specification: how far any beginning of the target leads down and up.
abbrev pub ups : ℕ → List Component → ℕ
ups zero cs = 0
ups (suc k) [] = 0
ups (suc k) (parent_dir ∷ cs) = suc (ups k cs)
ups (suc k) (c ∷ cs) = ups k cs

abbrev pub downs : ℕ → List Component → ℕ
downs zero cs = 0
downs (suc k) [] = 0
downs (suc k) (normal part ∷ cs) = suc (downs k cs)
downs (suc k) (c ∷ cs) = downs k cs

abbrev is_root_dir : Component → Bool
is_root_dir root_dir = true
is_root_dir _ = false

abbrev pub rootless : List Component → Bool
rootless = all (λ c. not (is_root_dir c))

-- From `depth` names down, no beginning of `cs` leads above the top.
abbrev pub StaysBelow : ℕ → List Component → Type 0
StaysBelow depth cs = (rootless cs ≡ true) × ((k : ℕ) → ups k cs ≤ depth + downs k cs)

at_each :
    (d : ℕ) (cs : List Component)
    → ((k : ℕ) → ups (suc k) cs ≤ d + downs (suc k) cs)
    → (k : ℕ) → ups k cs ≤ d + downs k cs
at_each d cs h zero = omega arith
at_each d cs h (suc k) = h k

climb_loop_sound :
    (depth : List Text) (cs : List Component)
    → climb_loop depth cs ≡ true
    → StaysBelow (length depth) cs
unfolding climb_loop
climb_loop_sound depth [] h = (refl, at_each (length depth) [] (λ k. omega arith))
climb_loop_sound depth (cur_dir ∷ cs) h =
    let (r, ih) = climb_loop_sound depth cs h in (r, at_each _ (cur_dir ∷ cs) ih)
climb_loop_sound depth (normal part ∷ cs) h =
    let (r, ih) = climb_loop_sound (part ∷ depth) cs h in
    (r, at_each _ (normal part ∷ cs) (λ k. omega (arith, ih k)))
climb_loop_sound [] (parent_dir ∷ cs) h = cc
climb_loop_sound (part ∷ depth) (parent_dir ∷ cs) h =
    let (r, ih) = climb_loop_sound depth cs h in
    (r, at_each _ (parent_dir ∷ cs) (λ k. omega (arith, ih k)))
climb_loop_sound depth (root_dir ∷ cs) h = cc

climb_loop_complete :
    (depth : List Text) (cs : List Component)
    → StaysBelow (length depth) cs
    → climb_loop depth cs ≡ true
unfolding climb_loop
climb_loop_complete depth [] (r, h) = refl
climb_loop_complete depth (cur_dir ∷ cs) (r, h) = climb_loop_complete depth cs (r, λ k. h (suc k))
climb_loop_complete depth (normal part ∷ cs) (r, h) =
    climb_loop_complete (part ∷ depth) cs (r, λ k. omega (arith, h (suc k)))
climb_loop_complete [] (parent_dir ∷ cs) (r, h) = absurd (omega (arith, h 1))
climb_loop_complete (part ∷ depth) (parent_dir ∷ cs) (r, h) =
    climb_loop_complete depth cs (r, λ k. omega (arith, h (suc k)))
climb_loop_complete depth (root_dir ∷ cs) (r, h) = cc

-- A link stays inside exactly when its target is not empty, is not absolute, and no beginning of it
-- has more `..` than there are names above the link and in that beginning.
pub link_target_inside_iff :
    (link target : Text)
    → (link_target_inside link target ≡ true) ↔ (
        (is_empty target ≡ false)
        × StaysBelow
            (length (parent_names (parent_components (components link))))
            (components target))
unfolding link_target_inside
link_target_inside_iff link [] = (λ h. cc, λ h. cc)
link_target_inside_iff link (c ∷ target) =
    let start = parent_names (parent_components (components link)) in
    (
      λ h. (refl, climb_loop_sound start (components (c ∷ target)) h),
      λ h. climb_loop_complete start (components (c ∷ target)) h.1,
    )
