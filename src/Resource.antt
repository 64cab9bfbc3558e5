-- ===== src/Resource.antt =====
-- crates/newgit-core/src/resource.rs: a resource's definition, who may tear it down, and the edges of
-- the resource graph. The maps of a definition are lists of pairs. A command and a template are
-- texts; `[[render]]` entries are those of crates/newgit-core/src/render.rs.
pub mod Edges
pub mod EnvNames
pub mod Collisions
pub mod Declared
pub mod Order
pub mod Accessors
pub mod Validate
use newgit.Prelude.{
  ℕ, Bool, true, false, not, ◌&&◌, ◌||◌, Option, none, some, List, [], ◌∷◌, ◌++◌, map, any, filter,
  ◌==◌, nat_eq, list_eq, if◌then◌else◌, contains,
}
use mathlib.Core.List.{flat_map}
use newgit.Text.{Text, bytes}
use newgit.Templates.{export_placeholders}

pub data Ownership : Type 0 where
  branch workspace project user external : Ownership

unfoldable pub per_branch_teardown_may_touch : Ownership → Bool
per_branch_teardown_may_touch branch = true
per_branch_teardown_may_touch workspace = true
per_branch_teardown_may_touch external = true
per_branch_teardown_may_touch project = false
per_branch_teardown_may_touch user = false

abbrev pub label : Ownership → Text
label branch = bytes "branch"
label workspace = bytes "workspace"
label project = bytes "project"
label user = bytes "user"
label external = bytes "external"

pub record IdentitySpec : Type 0 where
  pub paths : List Text
  pub produces : List Text
  pub key_command : Option Text

pub record PortRequest : Type 0 where
  pub start : ℕ
  pub env : Option Text

pub record ActionSpec : Type 0 where
  pub command : Option Text
  pub workdir : Option Text
  pub long_running : Bool
  pub autostart : Bool
  pub signal : Option Text
  pub captures : List Text

pub record CleanupSpec : Type 0 where
  pub command : Option Text

pub data CheckpointMode : Type 0 where
  no_checkpoint hash_checkpoint command_checkpoint external_checkpoint : CheckpointMode

pub record CheckpointSpec : Type 0 where
  pub mode : CheckpointMode
  pub command : Option Text
  pub into_tracker : Option Text
  pub state_ref : Option Text

pub data RestoreMode : Type 0 where
  no_restore command_restore recompute_restore external_restore : RestoreMode

pub record RestoreSpec : Type 0 where
  pub mode : RestoreMode
  pub command : Option Text
  pub action : Option Text

pub record Replacement : Type 0 where
  pub find_text : Text
  pub with_text : Text
  pub count : Option ℕ

pub record RenderSpec : Type 0 where
  pub path : Text
  pub replace : List Replacement

pub record ResourceDefinition : Type 0 where
  pub name : Text
  pub ownership : Ownership
  pub depends_on : List Text
  pub identity : Option IdentitySpec
  pub workdir : Option Text
  pub ports : List (Text × PortRequest)
  pub exports : List (Text × Text)
  pub render : List RenderSpec
  pub reads : Option (List Text)
  pub actions : List (Text × ActionSpec)
  pub checkpoint : Option CheckpointSpec
  pub restore : Option RestoreSpec
  pub cleanup : Option CleanupSpec
  pub definition_rev : Text

-- The names that a resource exports or captures, in the order of `export_owners`.
abbrev pub exported_names : ResourceDefinition → List Text
exported_names r =
    map (λ (name, value). name) r.exports ++ flat_map (λ (action, spec). spec.captures) r.actions

-- The map of `export_owners`, by the last insert of a name: later entries stand first.
abbrev pub insert_names : List Text → Text → List (Text × Text) → List (Text × Text)
insert_names [] owner owners = owners
insert_names (name ∷ names) owner owners = insert_names names owner ((name, owner) ∷ owners)

abbrev pub owners_from : List ResourceDefinition → List (Text × Text) → List (Text × Text)
owners_from [] owners = owners
owners_from (r ∷ resources) owners =
    owners_from resources (insert_names (exported_names r) r.name owners)

unfoldable pub export_owners : List ResourceDefinition → List (Text × Text)
export_owners resources = owners_from resources []

unfoldable pub lookup : Text → List (Text × Text) → Option Text
lookup name [] = none
lookup name ((key, value) ∷ entries) =
    let rest = lookup name entries in if key == name then some value else rest

-- The templates that are rendered while the graph is bound.
abbrev pub templates : ResourceDefinition → List Text
templates r =
    map (λ (name, value). value) r.exports
    ++ flat_map (λ spec. map (λ replacement. replacement.with_text) spec.replace) r.render

-- An edge: the resource, the owner it reads from, and the name that it reads. `DataEdges` is the list
-- of its entries, one for each time a name is read.
abbrev pub DataEdge : Type 0
DataEdge = Text × Text × Text

abbrev pub edge_to : ResourceDefinition → Text → Option Text → List DataEdge
edge_to r name none = []
edge_to r name (some owner) = if owner == r.name then [] else (r.name, owner, name) ∷ []

unfoldable pub name_edges : List (Text × Text) → ResourceDefinition → List Text → List DataEdge
name_edges owners r [] = []
name_edges owners r (name ∷ names) =
    edge_to r name (lookup name owners) ++ name_edges owners r names

unfoldable pub template_edges : List (Text × Text) → ResourceDefinition → List Text → List DataEdge
template_edges owners r [] = []
template_edges owners r (template ∷ rest) =
    name_edges owners r (export_placeholders template) ++ template_edges owners r rest

unfoldable pub resource_edges : List (Text × Text) → List ResourceDefinition → List DataEdge
resource_edges owners [] = []
resource_edges owners (r ∷ rest) =
    template_edges owners r (templates r) ++ resource_edges owners rest

unfoldable pub data_edges : List ResourceDefinition → List DataEdge
data_edges resources = resource_edges (export_owners resources) resources
