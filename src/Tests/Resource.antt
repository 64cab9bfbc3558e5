-- ===== src/Tests/Resource.antt =====
-- The inferred edges of two resources, and the placeholders of a template.
use native.Mathlib.Decide.{ℕ_discrete}
use mathlib.Core.List.{flat_map}
use newgit.Prelude.{some, arith, false, ◌≡◌, refl, List, [], ◌∷◌, none, contains, nat_eq, list_eq}
use newgit.Text.{Text, bytes, cmp, has_substring}
use newgit.Templates.{export_placeholders, before_close}
use newgit.Resource.{
  ResourceDefinition, branch, data_edges, export_owners, resource_edges, template_edges, name_edges,
  lookup,
}
use newgit.Prelude.Sort.{sort_by, insert_sorted, dedup_by}
use newgit.Resource.EnvNames.{
  check_env_names, problems_of, claimed_names, claimants_of, name_problems, env_claims,
  exported_claims, exported_anywhere, reserved_env_names,
}
use newgit.Resource.Declared.{declared_count, check_env_names-nil}

abbrev pub resource : Text → List (Text × Text) → ResourceDefinition
resource name exports = record {
  name = name;
  ownership = branch;
  depends_on = [];
  identity = none;
  workdir = none;
  ports = [];
  exports = exports;
  render = [];
  reads = none;
  actions = [];
  checkpoint = none;
  restore = none;
  cleanup = none;
  definition_rev = [];
}

abbrev pub database : ResourceDefinition
database = resource (bytes "db") ((bytes "DB_URL", bytes "postgres://x") ∷ [])

abbrev pub server : ResourceDefinition
server =
    resource (bytes "api")
      ((bytes "URL", bytes "{{exports.DB_URL}}/{{exports.URL}}/{{exports.X}}") ∷ [])

one_edge : data_edges (server ∷ database ∷ []) ≡ (bytes "api", bytes "db", bytes "DB_URL") ∷ []
unfolding data_edges export_owners resource_edges template_edges name_edges lookup
    export_placeholders before_close flat_map has_substring nat_eq list_eq ℕ_discrete
one_edge = refl

nested_opener : export_placeholders (bytes "{{exports.{{exports.A}}") ≡ bytes "A" ∷ []
unfolding export_placeholders before_close has_substring nat_eq list_eq ℕ_discrete
nested_opener = refl

-- An action captures the name that its resource exports.
abbrev capturing : ResourceDefinition
capturing = record database {
  actions =
      (
        bytes "prepare",
        record {
          command = some (bytes "make url");
          workdir = none;
          long_running = false;
          autostart = false;
          signal = none;
          captures = bytes "DB_URL" ∷ [];
        },
      )
      ∷ [];
}

nothing_reported : check_env_names (server ∷ capturing ∷ []) ≡ []
unfolding check_env_names problems_of claimed_names claimants_of name_problems env_claims
    exported_claims exported_anywhere sort_by insert_sorted dedup_by cmp nat_eq list_eq ℕ_discrete
nothing_reported = refl

url_declared : declared_count (bytes "DB_URL") (server ∷ capturing ∷ []) ≡ 1
unfolding nat_eq list_eq ℕ_discrete
url_declared = refl

check_env_names-nil_example :
    (declared_count (bytes "DB_URL") (server ∷ capturing ∷ []) ≡ 1)
    × (contains reserved_env_names (bytes "DB_URL") ≡ false)
check_env_names-nil_example =
    check_env_names-nil (server ∷ capturing ∷ []) (bytes "DB_URL") nothing_reported
      (omega (arith, url_declared))
