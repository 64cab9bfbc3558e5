-- ===== src/Branch.antt =====
-- crates/newgit-core/src/branch.rs: an instance's binding record, its name and its slug. A text is
-- here the list of its characters' code points. A time is its milliseconds since 1970.
pub mod Tidy
pub mod Slug
use Prim.Native.Nat.{◌/◌, ◌%◌}
use newgit.Prelude.{
  ℕ, zero, suc, ◌+◌, Bool, true, false, not, ◌&&◌, ◌||◌, Option, none, some, List, [], ◌∷◌, ◌++◌,
  map, all, length, ltb, leb, ◌==◌, nat_eq, list_eq, if◌then◌else◌,
}
use mathlib.Core.List.{flat_map}
use newgit.Text.{
  Text, bytes, ends_with, has_substring, is_ascii_alphanumeric, to_ascii_lowercase,
  trim_end_matches, trim_start_matches, decimal,
}
use newgit.Error.{name_too_long, invalid_name, Result, ok, err, ◌>>=◌, ◌>>◌}

pub data ResourceStatus : Type 0 where
  pending ready failed : ResourceStatus

pub data ParkedState : Type 0 where
  suspended cleaned_up untouched : ParkedState

pub data InstanceStatus : Type 0 where
  active : InstanceStatus

-- crates/newgit-core/src/render.rs
pub record AppliedReplacement : Type 0 where
  pub find_text : Text
  pub value : Text
  pub count : ℕ

pub record RenderRecord : Type 0 where
  pub path : Text
  pub tracker : Option Text
  pub applied : List AppliedReplacement

pub record ResourceBinding : Type 0 where
  pub definition_rev : Text
  pub resolved_ports : List (Text × ℕ)
  pub resolved_exports : List (Text × Text)
  pub rendered : List RenderRecord
  pub status : ResourceStatus
  pub restore_proven : Bool
  pub render_error : Option Text
  pub export_error : Option Text

pub record ParkedBinding : Type 0 where
  pub binding : ResourceBinding
  pub state : ParkedState

pub record TrackerBinding : Type 0 where
  pub definition_rev : Text
  pub content_rev : Option Text

pub record RemoteBinding : Type 0 where
  pub project : Text
  pub endpoint : Text

pub record BranchInstance : Type 0 where
  pub id : Text
  pub name : Text
  pub slug : Text
  pub source_ref : Text
  pub source_rev : Text
  pub base_ref : Option Text
  pub base_rev : Option Text
  pub created_source_branch : Bool
  pub workspace_path : Text
  pub status : InstanceStatus
  pub trackers : List (Text × TrackerBinding)
  pub resources : List (Text × ResourceBinding)
  pub dropped : List Text
  pub parked : List (Text × ParkedBinding)
  pub remote : Option RemoteBinding
  pub private : Bool
  pub created_at : ℕ
  pub updated_at : ℕ

-- `port_claims`: the bindings that hold ports, parked ones among them.
unfoldable pub port_claims : BranchInstance → List (Text × ResourceBinding)
port_claims b = b.resources ++ map (λ (name, parked). (name, parked.binding)) b.parked

-- The length in bytes of a character, and of a text.
abbrev pub len_utf8 : ℕ → ℕ
len_utf8 c = if ltb c 128 then 1 else if ltb c 2048 then 2 else if ltb c 65536 then 3 else 4

abbrev pub str_len : Text → ℕ
str_len [] = 0
str_len (c ∷ s) = len_utf8 c + str_len s

abbrev pub max_name_len : ℕ
max_name_len = 40

abbrev pub starts_ok : Text → Bool
starts_ok [] = false
starts_ok (c ∷ s) = is_ascii_alphanumeric c

abbrev pub name_char : ℕ → Bool
name_char c = is_ascii_alphanumeric c || (c == b'.' || c == b'_' || c == b'-' || c == b'/')

abbrev pub refname_ok : Text → Bool
refname_ok name =
    not (has_substring name (bytes ".."))
    && not (ends_with name (bytes "/"))
    && not (ends_with name (bytes ".lock"))

unfoldable pub validate_name : Text → Result (Unit {0})
validate_name name =
    if ltb max_name_len (str_len name)
    then err (name_too_long (str_len name) max_name_len)
    else if starts_ok name && all name_char name && refname_ok name
    then ok tt
    else err (invalid_name name)

-- The lower-case letters of the characters outside ASCII are Unicode's table.
module _ (unicode_lowercase : ℕ → List ℕ) where
  -- `char::to_lowercase`
  abbrev pub to_lowercase : ℕ → List ℕ
  to_lowercase c = if ltb c 128 then to_ascii_lowercase c ∷ [] else unicode_lowercase c

  -- `name.chars().flat_map(char::to_lowercase)`
  abbrev pub lowercase : Text → Text
  lowercase [] = []
  lowercase (c ∷ s) = to_lowercase c ++ lowercase s

-- The loop over the characters; the flag is `previous_dash`.
unfoldable pub slug_loop : Bool → Text → Text
slug_loop previous_dash [] = []
slug_loop previous_dash (c ∷ s) =
    let after_letter = c ∷ slug_loop false s in
    let after_dash = slug_loop true s in
    if is_ascii_alphanumeric c
    then after_letter
    else if not previous_dash
    then b'-' ∷ after_dash
    else after_dash

module _ (unicode_lowercase : ℕ → List ℕ) where
  unfoldable pub branch_slug : Text → Text
  branch_slug name =
      trim_start_matches b'-'
        (trim_end_matches b'-' (slug_loop false (lowercase unicode_lowercase name)))

  -- `BranchInstance::new`, at the time `now`.
  unfoldable pub new : Text → Text → Text → Text → ℕ → Result BranchInstance
  new name source_ref source_rev workspace_path now =
      validate_name name
      >> (let slug = branch_slug name in
          ok (record {
            id = bytes "br_" ++ (slug ++ (bytes "_" ++ decimal now));
            name = name;
            slug = slug;
            source_ref = source_ref;
            source_rev = source_rev;
            base_ref = none;
            base_rev = none;
            created_source_branch = false;
            workspace_path = workspace_path;
            status = active;
            trackers = [];
            resources = [];
            dropped = [];
            parked = [];
            remote = none;
            private = false;
            created_at = now;
            updated_at = now;
          }))

unfoldable pub with_base : BranchInstance → Text → Text → BranchInstance
with_base b base_ref base_rev = record b { base_ref = some base_ref; base_rev = some base_rev }
