-- ===== src/Lock/Env.antt =====
-- crates/newgit-core/src/lock.rs: `NEWGIT_LOCKED`, by which a command knows the locks of those it was started from.
use newgit.Prelude.{
  ℕ, not, Option, none, some, List, [], ◌∷◌, ◌++◌, map, any, filter, filter_map, find, ◌==◌, nat_eq,
  list_eq, if◌then◌else◌,
}
use newgit.Text.{Text, split_on, trim, is_empty, parse_u32}
use newgit.Resource.Accessors.{and_then}

abbrev pub cut_after : ℕ → Option (Text × Text) → Option (Text × Text)
cut_after c none = none
cut_after c (some (before, after)) = some (c ∷ before, after)

-- `s.split_once(':')`
unfoldable pub split_colon : Text → Option (Text × Text)
split_colon [] = none
split_colon (c ∷ s) =
    let rest = split_colon s in if c == b':' then some ([], s) else cut_after c rest

unfoldable pub parse_entries : Text → List (Text × Text)
parse_entries value = filter_map (λ entry. split_colon (trim entry)) (split_on b',' value)

abbrev pub entry_text : Text × Text → Text
entry_text (slug, token) = slug ++ (b':' ∷ token)

-- `entries.join(",")`
unfoldable pub join_commas : List Text → Text
join_commas [] = []
join_commas (entry ∷ []) = entry
join_commas (entry ∷ next ∷ entries) = entry ++ (b',' ∷ join_commas (next ∷ entries))

-- `locked_env_value`, with what the process inherited.
unfoldable pub locked_env_value : Text → List (Text × Text) → Text
locked_env_value inherited held = join_commas (
    map entry_text (
      filter (λ (slug, token). not (any (λ (mine, t). mine == slug) held))
        (parse_entries inherited))
    ++ map entry_text held)

abbrev pub first_part : List Text → Option Text
first_part [] = none
first_part (part ∷ parts) = some part

abbrev pub holder : Text → Option Text → Option ℕ
holder token none = none
holder token (some current) =
    if is_empty token
    then none
    else if trim current == token
    then and_then (first_part (split_on b'.' token)) parse_u32
    else none

-- `held_by_ancestor`, with what the process inherited and what the lock file holds.
unfoldable pub held_by_ancestor : Option Text → Option Text → Text → Option ℕ
held_by_ancestor inherited current slug = and_then inherited λ value.
    and_then (find (λ (locked, token). locked == slug) (parse_entries value))
      λ (locked, token). holder token current
