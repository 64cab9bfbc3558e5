-- ===== src/Objects/Distinct.antt =====
-- crates/newgit-core/src/objects.rs: a tree's entries have one name each, and what sorting them and
-- replacing one of them do to the entry of a name.
use newgit.Prelude.{
  ◌≡◌, refl, ap, ◌∙◌, true, false, Option, none, some, List, [], ◌∷◌, any, find, ◌==◌, nat_eq,
  list_eq, if◌then◌else◌, arith,
}
use Prim.Native.Nat.{Ordering}
use newgit.Prelude.Sort.{insert_sorted, sort_by, any-sort_by, any-insert_sorted}
use newgit.Text.{Text}
use newgit.Objects.Trees.{Entry}
use newgit.Objects.Store.{named, replace_named}

-- No name stands twice.
abbrev pub Distinct : List Entry → Type 0
Distinct [] = Unit {0}
Distinct (entry ∷ entries) = (any (named entry.name) entries ≡ false) × Distinct entries

find-absent :
    (name : Text) (entries : List Entry)
    → any (named name) entries ≡ false
    → find (named name) entries ≡ none
find-absent name [] h = refl
find-absent name (entry ∷ entries) h = ground (arith, find-absent name entries)

named_same :
    (name : Text) (a : Entry) (entries : List Entry)
    → named name a ≡ true
    → any (named a.name) entries ≡ any (named name) entries
named_same name a entries h = ap (λ n. any (named n) entries) (ground (arith, h))

module _ (order : Entry → Entry → Ordering) where
  Distinct-insert_sorted :
      (entry : Entry) (entries : List Entry)
      → any (named entry.name) entries ≡ false
      → Distinct entries
      → Distinct (insert_sorted order entry entries)
  unfolding insert_sorted
  Distinct-insert_sorted entry [] h d = (refl, tt)
  Distinct-insert_sorted entry (e ∷ entries) h d = ground (
    arith,
    Distinct-insert_sorted entry entries,
    any-insert_sorted (named e.name) order entry entries,
  )

  pub Distinct-sort_by :
      (entries : List Entry) → Distinct entries → Distinct (sort_by order entries)
  unfolding sort_by
  Distinct-sort_by [] d = tt
  Distinct-sort_by (entry ∷ entries) d =
      Distinct-insert_sorted entry (sort_by order entries)
        (any-sort_by (named entry.name) order entries ∙ d.0) (Distinct-sort_by entries d.1)

  find-insert_sorted :
      (name : Text) (entry : Entry) (entries : List Entry)
      → any (named entry.name) entries ≡ false
      → find (named name) (insert_sorted order entry entries) ≡ find (named name) (entry ∷ entries)
  unfolding insert_sorted
  find-insert_sorted name entry [] h = refl
  find-insert_sorted name entry (e ∷ entries) h =
      ground (arith, find-insert_sorted name entry entries)

  -- Sorting keeps the entry of each name.
  pub find-sort_by :
      (name : Text) (entries : List Entry)
      → Distinct entries
      → find (named name) (sort_by order entries) ≡ find (named name) entries
  unfolding sort_by
  find-sort_by name [] d = refl
  find-sort_by name (entry ∷ entries) d =
      find-insert_sorted name entry (sort_by order entries)
        (any-sort_by (named entry.name) order entries ∙ d.0)
      ∙ ap (λ rest. if named name entry then some entry else rest) (find-sort_by name entries d.1)

-- The entry is of the name, if there is one.
abbrev pub OfName : Text → Option Entry → Type 0
OfName name none = Unit {0}
OfName name (some entry) = entry.name ≡ name

any-replace_named :
    (other name : Text) (entry : Option Entry) (entries : List Entry)
    → OfName name entry
    → (name == other) ≡ false
    → any (named other) (replace_named name entry entries) ≡ any (named other) entries
any-replace_named other name none [] o h = refl
any-replace_named other name (some entry) [] o h = ground arith
any-replace_named other name none (e ∷ entries) o h =
    ground (arith, any-replace_named other name none entries)
any-replace_named other name (some entry) (e ∷ entries) o h =
    ground (arith, any-replace_named other name (some entry) entries)

pub Distinct-replace_named :
    (name : Text) (entry : Option Entry) (entries : List Entry)
    → OfName name entry
    → Distinct entries
    → Distinct (replace_named name entry entries)
Distinct-replace_named name none [] o d = tt
Distinct-replace_named name (some entry) [] o d = (refl, tt)
Distinct-replace_named name none (e ∷ entries) o d =
    ground
      (arith, Distinct-replace_named name none entries, any-replace_named e.name name none entries)
Distinct-replace_named name (some entry) (e ∷ entries) o d = ground (
  arith,
  Distinct-replace_named name (some entry) entries,
  any-replace_named e.name name (some entry) entries,
  named_same name e entries,
)

-- The entry of the name is the one it was replaced with.
pub find-replace_named :
    (name : Text) (entry : Option Entry) (entries : List Entry)
    → OfName name entry
    → Distinct entries
    → find (named name) (replace_named name entry entries) ≡ entry
find-replace_named name none [] o d = refl
find-replace_named name (some entry) [] o d = ground arith
find-replace_named name none (e ∷ entries) o d = ground (
  arith,
  find-replace_named name none entries,
  find-absent name entries,
  named_same name e entries,
)
find-replace_named name (some entry) (e ∷ entries) o d =
    ground (arith, find-replace_named name (some entry) entries)

-- The entries of the other names stay.
pub find-replace_named_other :
    (other name : Text) (entry : Option Entry) (entries : List Entry)
    → OfName name entry
    → (name == other) ≡ false
    → find (named other) (replace_named name entry entries) ≡ find (named other) entries
find-replace_named_other other name none [] o h = refl
find-replace_named_other other name (some entry) [] o h = ground arith
find-replace_named_other other name none (e ∷ entries) o h =
    ground (arith, find-replace_named_other other name none entries)
find-replace_named_other other name (some entry) (e ∷ entries) o h =
    ground (arith, find-replace_named_other other name (some entry) entries)
