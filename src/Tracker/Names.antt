-- ===== src/Tracker/Names.antt =====
-- crates/newgit-core/src/tracker.rs: a nested tracker's id is its parent's id and its own name,
-- joined by `__`.
use newgit.Prelude.{
  ◌≡◌, refl, ap, sym, ◌∙◌, Bool, true, false, not, ◌&&◌, Option, none, some, [], ◌∷◌, ◌++◌, arith,
  ◌==◌, nat_eq, list_eq, if◌then◌else◌, Bool-cases, inl, inr,
}
use mathlib.Core.List.{append_cancel_right}
use newgit.Text.{Text, bytes, starts_with, ends_with, has_substring}
use newgit.Tracker.{root_tracker}

abbrev pub id_separator : Text
id_separator = bytes "__"

unfoldable pub child_id : Text → Text → Text
child_id parent name = if parent == root_tracker then name else parent ++ (id_separator ++ name)

-- `s.rsplit(sep).next()`, for the separator `__`: what follows its last occurrence, and all of the
-- text if there is none.
abbrev drop_two : Text → Text
drop_two (c ∷ d ∷ s) = s
drop_two s = []

unfoldable pub after_last : Text → Option Text
after_last [] = none
after_last (c ∷ s) = elim (after_last s) [
  | some rest ↦ some rest
  | none ↦ if starts_with (c ∷ s) id_separator then some (drop_two (c ∷ s)) else none
]

abbrev pub or_whole : Text → Option Text → Text
or_whole id none = id
or_whole id (some name) = name

unfoldable pub leaf_name : Text → Text
leaf_name id = or_whole id (after_last id)

unfoldable pub name_fits_id : Text → Bool
name_fits_id name =
    not (has_substring name id_separator)
    && not (starts_with name (bytes "_"))
    && not (ends_with name (bytes "_"))

after_last-none : (s : Text) → has_substring s id_separator ≡ false → after_last s ≡ none
unfolding has_substring after_last
after_last-none [] h = refl
after_last-none (c ∷ s) h = ground (arith, after_last-none s)

after_last-append :
    (s t : Text) {rest : Text} → after_last t ≡ some rest → after_last (s ++ t) ≡ some rest
unfolding after_last
after_last-append [] t h = h
after_last-append (c ∷ s) t h = rw (after_last-append s t h)

after_last-separator :
    (name : Text)
    → has_substring name id_separator ≡ false
    → starts_with name (bytes "_") ≡ false
    → after_last (id_separator ++ name) ≡ some name
unfolding after_last
after_last-separator [] h k = unfold nat_eq in refl
after_last-separator (c ∷ name) h k = ground (arith, after_last-none (c ∷ name) h)

fits_parts :
    (name : Text)
    → name_fits_id name ≡ true
    → (has_substring name id_separator ≡ false) × (starts_with name (bytes "_") ≡ false)
unfolding name_fits_id
fits_parts name h = ground arith

child_id_nested :
    (parent name : Text)
    → (parent == root_tracker) ≡ false
    → child_id parent name ≡ parent ++ (id_separator ++ name)
unfolding child_id
child_id_nested parent name h = rw h

child_id_top : (parent name : Text) → (parent == root_tracker) ≡ true → child_id parent name ≡ name
unfolding child_id
child_id_top parent name h = rw h

-- The name of a child is read back from its id.
pub leaf_name-child_id :
    (parent name : Text) → name_fits_id name ≡ true → leaf_name (child_id parent name) ≡ name
unfolding leaf_name
leaf_name-child_id parent name h =
    let (plain, start) = fits_parts name h in
    elim (Bool-cases (parent == root_tracker)) [
      | inl e ↦ rw (child_id_top parent name e) (ap (or_whole name) (after_last-none name plain))
      | inr e ↦ rw (child_id_nested parent name e) (
          ap (or_whole _) (
            after_last-append parent (id_separator ++ name)
              (after_last-separator name plain start)))
    ]

-- No two children of trackers other than root share an id: the id gives the parent and the name.
pub child_id-injective :
    (parent other name name' : Text)
    → name_fits_id name ≡ true
    → name_fits_id name' ≡ true
    → (parent == root_tracker) ≡ false
    → (other == root_tracker) ≡ false
    → child_id parent name ≡ child_id other name'
    → (parent ≡ other) × (name ≡ name')
child_id-injective parent other name name' f g p q h =
    let same : name ≡ name' =
      sym (leaf_name-child_id parent name f)
      ∙ (ap leaf_name h ∙ leaf_name-child_id other name' g) in
    let texts : parent ++ (id_separator ++ name) ≡ other ++ (id_separator ++ name) =
      sym (child_id_nested parent name p)
      ∙ (h
          ∙ (child_id_nested other name' q
              ∙ ap (λ (n : Text). other ++ (id_separator ++ n)) (sym same))) in
    (append_cancel_right parent other (id_separator ++ name) texts, same)
