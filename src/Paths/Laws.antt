-- ===== src/Paths/Laws.antt =====
-- What `normalize_path` keeps of a path, and that it is done in one pass.
use newgit.Prelude.{
  ◌≡◌, refl, ap, Bool, true, false, List, [], ◌∷◌, ◌++◌, map, arith, ◌==◌, nat_eq, list_eq,
  if◌then◌else◌, filter_map, cons_some, all, All, inl, inr, Bool-cases,
}
use mathlib.Core.List.{append-nil, append_assoc}
use newgit.Text.{Text, bytes, split_on, is_empty, starts_with}
use newgit.Text.Split.{lacks, split_on-lacks}
use newgit.Paths.{
  Component, root_dir, cur_dir, parent_dir, normal, dot, part_component, relative_components,
  components, push, or_dot, normalize_loop, normalize_path,
}
use newgit.Paths.Parts.{IsPart, names, stays, stays_inside, IsJoined, push-IsJoined, first-IsJoined}

abbrev AreParts : List Component → Type 0
AreParts cs = All IsPart (names cs)

push_all : Text → List Text → Text
push_all text [] = text
push_all text (part ∷ parts) = push_all (push text part) parts

normalize_loop-stays :
    (path text : Text) (cs : List Component)
    → all stays cs ≡ true
    → normalize_loop path text cs ≡ or_dot path (push_all text (names cs))
unfolding normalize_loop push_all
normalize_loop-stays path text [] h = refl
normalize_loop-stays path text (cur_dir ∷ cs) h = normalize_loop-stays path text cs h
normalize_loop-stays path text (normal part ∷ cs) h =
    normalize_loop-stays path (push text part) cs h
normalize_loop-stays path text (root_dir ∷ cs) h = cc
normalize_loop-stays path text (parent_dir ∷ cs) h = cc

normalize_loop-leaves :
    (path text : Text) (cs : List Component)
    → all stays cs ≡ false
    → normalize_loop path text cs ≡ path
unfolding normalize_loop
normalize_loop-leaves path text [] h = cc
normalize_loop-leaves path text (cur_dir ∷ cs) h = normalize_loop-leaves path text cs h
normalize_loop-leaves path text (normal part ∷ cs) h =
    normalize_loop-leaves path (push text part) cs h
normalize_loop-leaves path text (root_dir ∷ cs) h = refl
normalize_loop-leaves path text (parent_dir ∷ cs) h = refl

push_all-IsJoined :
    (text : Text) (parts more : List Text)
    → IsJoined text parts
    → All IsPart more
    → IsJoined (push_all text more) (parts ++ more)
unfolding push_all
push_all-IsJoined text parts [] j a = rw append-nil j
push_all-IsJoined text parts (part ∷ more) j (p, a) = rw append_assoc at (
    push_all-IsJoined (push text part) (parts ++ part ∷ []) more (push-IsJoined text part parts j p)
      a)

names-cons_some :
    (part : Text) (cs : List Component)
    → lacks b'/' part ≡ true
    → AreParts cs
    → AreParts (cons_some (part_component part) cs)
unfolding part_component
names-cons_some part cs h a = ground arith

filter_map-AreParts :
    (parts : List Text)
    → All (λ p. lacks b'/' p ≡ true) parts
    → AreParts (filter_map part_component parts)
filter_map-AreParts [] h = tt
filter_map-AreParts (part ∷ parts) (h, hs) =
    names-cons_some part (filter_map part_component parts) h (filter_map-AreParts parts hs)

relative-AreParts :
    (parts : List Text)
    → All (λ p. lacks b'/' p ≡ true) parts
    → AreParts (relative_components parts)
unfolding relative_components
relative-AreParts [] h = tt
relative-AreParts (part ∷ parts) (h, hs) = elim (Bool-cases (part == dot)) [
  | inl e ↦ rw e (filter_map-AreParts parts hs)
  | inr e ↦ rw e (filter_map-AreParts (part ∷ parts) (h, hs))
]

components-AreParts : (path : Text) → AreParts (components path)
unfolding components
components-AreParts path = elim (Bool-cases (starts_with path (bytes "/"))) [
  | inl e ↦ rw e (filter_map-AreParts (split_on b'/' path) (split_on-lacks b'/' path))
  | inr e ↦ rw e (relative-AreParts (split_on b'/' path) (split_on-lacks b'/' path))
]

abbrev pub no_names : List Text → Bool
no_names [] = true
no_names (part ∷ parts) = false

-- The components that a normalized path is left with.
abbrev pub settled : Text → List Text → List Component
settled path parts =
    if no_names parts then (if is_empty path then [] else cur_dir ∷ []) else map normal parts

push_nil : (part : Text) → push [] part ≡ part
unfolding push
push_nil part = ground arith

or_dot_lem : (path text : Text) → is_empty text ≡ false → or_dot path text ≡ text
or_dot_lem path [] h = cc
or_dot_lem path (c ∷ text) h = refl

components-or_dot_nil : (path : Text) → components (or_dot path []) ≡ settled path []
unfolding components relative_components split_on part_component list_eq nat_eq
components-or_dot_nil [] = refl
components-or_dot_nil (c ∷ path) = refl

joined :
    (part : Text) (parts : List Text)
    → All IsPart (part ∷ parts)
    → IsJoined (push_all [] (part ∷ parts)) (part ∷ parts)
unfolding push_all
joined part parts (p, a) =
    rw push_nil (push_all-IsJoined part (part ∷ []) parts (first-IsJoined part p) a)

settled-push_all :
    (path : Text) (parts : List Text)
    → All IsPart parts
    → components (or_dot path (push_all [] parts)) ≡ settled path parts
settled-push_all path [] a = unfold push_all in components-or_dot_nil path
settled-push_all path (part ∷ parts) a =
    let j = joined part parts a in
    rw (or_dot_lem path (push_all [] (part ∷ parts)) j.nonempty) j.spelled

names-map_normal : (parts : List Text) → names (map normal parts) ≡ parts
names-map_normal [] = refl
names-map_normal (part ∷ parts) = ap (λ (ps : List Text). part ∷ ps) (names-map_normal parts)

all-stays-map_normal : (parts : List Text) → all stays (map normal parts) ≡ true
all-stays-map_normal [] = refl
all-stays-map_normal (part ∷ parts) = all-stays-map_normal parts

-- A path that stays in the workspace keeps its names, in order, and nothing else: a path of no
-- names becomes `.`, and the empty path stays empty.
pub components-normalize_path :
    (path : Text)
    → stays_inside path ≡ true
    → components (normalize_path path) ≡ settled path (names (components path))
unfolding normalize_path
components-normalize_path path h =
    rw (normalize_loop-stays path [] (components path) h)
      (settled-push_all path (names (components path)) (components-AreParts path))

normalize_loop-spelled :
    (path : Text) (parts : List Text)
    → All IsPart parts
    → let r = or_dot path (push_all [] parts) in normalize_loop r [] (components r) ≡ r
normalize_loop-spelled [] [] a =
    unfold push_all components relative_components split_on part_component normalize_loop list_eq
      nat_eq in
    refl
normalize_loop-spelled (c ∷ path) [] a =
    unfold push_all components relative_components split_on part_component normalize_loop list_eq
      nat_eq in
    refl
normalize_loop-spelled path (part ∷ parts) a =
    let ps = part ∷ parts in
    let j = joined part parts a in
    let t = push_all [] ps in
    rw
      (
        or_dot_lem path t j.nonempty,
        j.spelled,
        normalize_loop-stays t [] (map normal ps) (all-stays-map_normal ps),
        names-map_normal ps,
      )
      (or_dot_lem t t j.nonempty)

-- A normalized path is normal: a second pass changes nothing.
pub normalize_path_idem : (path : Text) → normalize_path (normalize_path path) ≡ normalize_path path
unfolding normalize_path
normalize_path_idem path = elim (Bool-cases (stays_inside path)) [
  | inl h ↦
      rw (normalize_loop-stays path [] (components path) h)
        (normalize_loop-spelled path (names (components path)) (components-AreParts path))
  | inr h ↦
      rw (normalize_loop-leaves path [] (components path) h)
        (normalize_loop-leaves path [] (components path) h)
]
