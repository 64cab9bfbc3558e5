-- ===== src/Paths.antt =====
-- Workspace paths (crates/newgit-core/src/tracker.rs: `normalize_path`, `link_target_inside`, and
-- the path tests of the other files). A path is its text; its components, comparisons and `push`
-- are those of Rust's `std::path` on Unix.
pub mod Parts
pub mod Laws
pub mod Links
use newgit.Prelude.{
  ◌≡◌, Bool, true, false, ◌&&◌, Option, none, some, List, [], ◌∷◌, ◌++◌, Eq, ◌==◌, nat_eq, list_eq,
  if◌then◌else◌, is_prefix, filter_map, any,
}
use native.Mathlib.Decide.{ℕ_discrete}
use newgit.Text.{Text, bytes, split_on, is_empty, starts_with, ends_with}

pub data Component : Type 0 where
  root_dir cur_dir parent_dir : Component
  normal : Text → Component

component_dec : Discrete Component
component_dec = hlevel ℕ_discrete

instance unfoldable pub component_eq : Eq Component
unfolding component_dec ℕ_discrete
component_eq = record { dec = component_dec }

abbrev pub dot : Text
dot = bytes "."

-- A part between slashes: an empty one and `.` name nothing.
unfoldable pub part_component : Text → Option Component
part_component part =
    if is_empty part
    then none
    else if part == dot
    then none
    else if part == bytes ".."
    then some parent_dir
    else some (normal part)

-- A leading `.` is a component, unlike any other.
unfoldable pub relative_components : List Text → List Component
relative_components [] = []
relative_components (first ∷ parts) =
    if first == dot
    then cur_dir ∷ filter_map part_component parts
    else filter_map part_component (first ∷ parts)

-- `path.components()`
unfoldable pub components : Text → List Component
components path =
    if starts_with path (bytes "/")
    then root_dir ∷ filter_map part_component (split_on b'/' path)
    else relative_components (split_on b'/' path)

-- `path == other`: by components.
unfoldable pub same_path : Text → Text → Bool
same_path path other = components path == components other

-- `path.starts_with(base)`: whole components.
unfoldable pub under : Text → Text → Bool
under path base = is_prefix (components base) (components path)

-- `path.is_absolute()`
abbrev pub is_absolute : Text → Bool
is_absolute path = starts_with path (bytes "/")

abbrev pub is_parent_dir : Component → Bool
is_parent_dir parent_dir = true
is_parent_dir _ = false

-- `path.components().any(|c| c.as_str() == "..")`
abbrev pub climbs : Text → Bool
climbs path = any is_parent_dir (components path)

-- `buf.push(path)`, and `buf.join(path)`
unfoldable pub push : Text → Text → Text
push buf path =
    if is_absolute path
    then path
    else if is_empty buf
    then path
    else if ends_with buf (bytes "/")
    then buf ++ path
    else buf ++ (bytes "/" ++ path)

-- The end of `normalize_path`: `./` is `.`.
abbrev pub or_dot : Text → Text → Text
or_dot path [] = if is_empty path then [] else dot
or_dot path (c ∷ normal_text) = c ∷ normal_text

-- The loop of `normalize_path` over the components, with the text pushed so far.
unfoldable pub normalize_loop : Text → Text → List Component → Text
normalize_loop path text [] = or_dot path text
normalize_loop path text (cur_dir ∷ rest) = normalize_loop path text rest
normalize_loop path text (normal part ∷ rest) = normalize_loop path (push text part) rest
normalize_loop path text (parent_dir ∷ rest) = path
normalize_loop path text (root_dir ∷ rest) = path

unfoldable pub normalize_path : Text → Text
normalize_path path = normalize_loop path [] (components path)
