-- ===== src/Tests/Export.antt =====
-- An export of two source files and a private tracker's file.
use native.Mathlib.Decide.{ℕ_discrete}
use newgit.Prelude.{
  ◌≡◌, refl, List, [], ◌∷◌, true, all, none, some, nat_eq, list_eq, is_prefix_refl, arith,
}
use newgit.Text.{Text, bytes}
use newgit.Error.{ok, holds}
use newgit.Paths.{under, components, component_eq}
use newgit.Export.{
  ExportFilter, Workspace, plan, public_tracker, plan_source, plan_trackers, plan_tracker,
  plan_includes, collect_files, collect_loop, collect_one, is_public, covers,
}
use newgit.Prelude.Sort.{sort_by, insert_sorted, dedup_by}
use newgit.Tracker.{TrackerDefinition}
use newgit.Export.Closed.{may_leave, plan-may_leave}
use newgit.Export.Accounts.{accounts_for, plan-accounts_for}
use newgit.Tests.Samples.{apps, mobile}

-- Every path is a file.
abbrev flat : Workspace
flat = record {
  is_file = λ path. true;
  walk = λ root. ok (root ∷ []);
  symlinked_parent = λ path. none;
}

abbrev sources : List Text
sources = bytes "src/main.rs" ∷ bytes "README.md" ∷ []

abbrev filters : ExportFilter
filters = record { includes = bytes "target/doc" ∷ []; excludes = bytes "README.md" ∷ [] }

under_self : (root : Text) → holds (all (λ f. under f root)) (flat.walk root) ≡ true
unfolding under
under_self root = ground (arith, is_prefix_refl (components root))

plan-may_leave_example :
    holds
      (λ p. all (may_leave flat sources (mobile ∷ []) filters) p.files)
      (plan flat sources (mobile ∷ []) filters)
    ≡ true
plan-may_leave_example = plan-may_leave flat sources (mobile ∷ []) filters under_self

plan-accounts_for_example :
    holds (accounts_for (bytes "README.md")) (plan flat sources (mobile ∷ []) filters) ≡ true
unfolding nat_eq list_eq ℕ_discrete
plan-accounts_for_example =
    plan-accounts_for (bytes "README.md") flat sources (mobile ∷ []) filters refl refl

-- A public tracker claims `apps`, and a private one a part of it.
abbrev public_apps : TrackerDefinition
public_apps = record apps { paths = bytes "apps" ∷ []; audience = bytes "public" }

-- What stands under `apps` is one file, of the private tracker.
abbrev one_file : Workspace
one_file = record flat { walk = λ root. ok (bytes "apps/mobile/x" ∷ []) }

abbrev none_named : ExportFilter
none_named = record { includes = []; excludes = [] }

-- The private tracker's file ships, for the public one.
ships_nested :
    plan one_file [] (public_apps ∷ mobile ∷ []) none_named
    ≡ ok (record {
      files =
          record {
            path = bytes "apps/mobile/x";
            reason = public_tracker;
            tracker = some (bytes "apps");
          }
          ∷ [];
      trackers =
          record { name = bytes "apps"; audience = bytes "public"; included = 1; withheld = [] }
          ∷ record {
            name = bytes "mobile";
            audience = mobile.audience;
            included = 0;
            withheld = bytes "apps/mobile/x" ∷ [];
          }
          ∷ [];
      excluded = [];
    })
unfolding plan plan_source plan_trackers plan_tracker plan_includes collect_files collect_loop
    collect_one is_public covers sort_by insert_sorted dedup_by nat_eq list_eq ℕ_discrete
ships_nested = refl
