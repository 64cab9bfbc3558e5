-- ===== src/Paths/Parts.antt =====
-- A path as the names pushed one after the other (what the loop of `normalize_path` in
-- crates/newgit-core/src/tracker.rs builds).
use newgit.Prelude.{
  ℕ, ◌≡◌, ◌≢◌, refl, ap, ◌∙◌, sym, Bool, true, false, Option, none, some, List, [], ◌∷◌, ◌++◌, map,
  arith, ◌==◌, nat_eq, list_eq, filter_map, filter_map-append, all, inl, inr, Bool-cases,
}
use mathlib.Core.List.{map-append}
use newgit.Text.{Text, bytes, split_on, is_empty, starts_with, ends_with}
use newgit.Text.Split.{lacks, split_on_whole, split_on-snoc, split_on-ne-nil}
use newgit.Paths.{
  Component, root_dir, parent_dir, normal, dot, part_component, relative_components, components,
  push,
}

-- A name between slashes.
abbrev pub IsPart : Text → Type 0
IsPart part = (lacks b'/' part ≡ true) × (part_component part ≡ some (normal part))

abbrev name_of : Component → Option Text
name_of (normal part) = some part
name_of _ = none

-- The names along a path.
abbrev pub names : List Component → List Text
names = filter_map name_of

abbrev pub stays : Component → Bool
stays root_dir = false
stays parent_dir = false
stays _ = true

-- No `..` and no root: what `normalize_path` does not give back as written.
abbrev pub stays_inside : Text → Bool
stays_inside path = all stays (components path)

-- `push` of a name onto a path of names.
pub record IsJoined (text : Text) (parts : List Text) : Type 0 where
  pub nonempty : is_empty text ≡ false
  pub open_end : ends_with text (bytes "/") ≡ false
  pub relative : starts_with text (bytes "/") ≡ false
  pub spelled : components text ≡ map normal parts

ends_with_slash-append :
    (s : Text) (c : ℕ) (part : Text)
    → ends_with (s ++ c ∷ part) (bytes "/") ≡ ends_with (c ∷ part) (bytes "/")
ends_with_slash-append [] c part = refl
ends_with_slash-append (d ∷ []) c part = ground arith
ends_with_slash-append (d ∷ e ∷ s) c part = ground (arith, ends_with_slash-append (e ∷ s) c part)

lacks-ends_with : (part : Text) → lacks b'/' part ≡ true → ends_with part (bytes "/") ≡ false
lacks-ends_with [] h = ground arith
lacks-ends_with (c ∷ part) h = ground (arith, lacks-ends_with part)

relative_part : (part : Text) → lacks b'/' part ≡ true → starts_with part (bytes "/") ≡ false
relative_part [] h = refl
relative_part (c ∷ part) h = ground arith

IsPart-not-dot : (part : Text) → IsPart part → (part == dot) ≡ false
unfolding part_component
IsPart-not-dot part (h, e) = ground arith

IsPart-components : (part : Text) → IsPart part → components part ≡ normal part ∷ []
unfolding components relative_components
IsPart-components part (h, e) =
    ground (arith, split_on_whole b'/' part h, IsPart-not-dot part (h, e), relative_part part h)

names-snoc :
    (parts : List Text) (part : Text)
    → IsPart part
    → filter_map part_component (parts ++ part ∷ [])
      ≡ filter_map part_component parts ++ normal part ∷ []
names-snoc parts part p = rw (filter_map-append, p.1)

relative_components-snoc :
    (parts : List Text) (part : Text)
    → parts ≢ []
    → IsPart part
    → relative_components (parts ++ part ∷ []) ≡ relative_components parts ++ normal part ∷ []
unfolding relative_components
relative_components-snoc [] part h p = absurd (h refl)
relative_components-snoc (first ∷ parts) part h p = elim (Bool-cases (first == dot)) [
  | inl e ↦ rw (e, names-snoc parts part p)
  | inr e ↦ rw e (names-snoc (first ∷ parts) part p)
]

components-snoc :
    (text part : Text)
    → is_empty text ≡ false
    → starts_with text (bytes "/") ≡ false
    → IsPart part
    → components (text ++ b'/' ∷ part) ≡ components text ++ normal part ∷ []
unfolding components
components-snoc [] part n r p = cc
components-snoc (c ∷ text) part n r p =
    rw (r, split_on-snoc b'/' (c ∷ text) part p.0)
      (relative_components-snoc (split_on b'/' (c ∷ text)) part (split_on-ne-nil b'/' (c ∷ text)) p)

map-snoc :
    (parts : List Text) (part : Text)
    → map normal (parts ++ part ∷ []) ≡ map normal parts ++ normal part ∷ []
map-snoc parts part = rw map-append

IsPart-nonempty : (part : Text) → IsPart part → is_empty part ≡ false
unfolding part_component
IsPart-nonempty part (h, e) = ground arith

push_name :
    (text part : Text)
    → ends_with text (bytes "/") ≡ false
    → is_empty text ≡ false
    → IsPart part
    → push text part ≡ text ++ b'/' ∷ part
unfolding push
push_name text part e n p = rw (relative_part part p.0, n, e)

slash_part : (part : Text) → IsPart part → ends_with (b'/' ∷ part) (bytes "/") ≡ false
unfolding part_component
slash_part [] (h, e) = cc
slash_part (c ∷ part) (h, e) = ground (arith, lacks-ends_with (c ∷ part) h)

pub push-IsJoined :
    (text part : Text) (parts : List Text)
    → IsJoined text parts
    → IsPart part
    → IsJoined (push text part) (parts ++ part ∷ [])
push-IsJoined [] part parts j p = absurd (ground (arith, j.nonempty))
push-IsJoined (c ∷ text) part parts j p =
    rw (push_name (c ∷ text) part j.open_end j.nonempty p) (record {
      nonempty = refl;
      open_end = ends_with_slash-append (c ∷ text) b'/' part ∙ slash_part part p;
      relative = j.relative;
      spelled =
          components-snoc (c ∷ text) part refl j.relative p
          ∙ ap (λ cs. cs ++ normal part ∷ []) j.spelled
          ∙ sym (map-snoc parts part);
    })

pub first-IsJoined : (part : Text) → IsPart part → IsJoined part (part ∷ [])
first-IsJoined part p = record {
  nonempty = IsPart-nonempty part p;
  open_end = lacks-ends_with part p.0;
  relative = relative_part part p.0;
  spelled = IsPart-components part p;
}

-- The names of `cs` are parts.
