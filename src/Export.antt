-- ===== src/Export.antt =====
-- crates/newgit-core/src/export.rs: which files leave a workspace. The file system answers three
-- questions, which are parameters: whether a path is a file, what a path's walk finds, and which
-- parent of a path is a symlink.
pub mod Closed
pub mod Accounts
use newgit.Prelude.{
  ℕ, zero, suc, ◌+◌, Bool, true, false, not, ◌&&◌, ◌||◌, Option, none, some, List, [], ◌∷◌, ◌++◌,
  map, any, filter, length, ◌==◌, list_eq, nat_eq, if◌then◌else◌,
}
use newgit.Prelude.Sort.{sort_by, dedup_by}
use newgit.Text.{Text, bytes}
use newgit.Error.{Result, ok, err, ◌>>=◌, NewgitError}
use newgit.Paths.{same_path, under}
use newgit.Tracker.{TrackerDefinition}
use newgit.Tracker.Resolve.{path_cmp}

pub record ExportFilter : Type 0 where
  pub includes : List Text
  pub excludes : List Text

pub data Reason : Type 0 where
  source public_tracker forced : Reason

pub record ExportedFile : Type 0 where
  pub path : Text
  pub reason : Reason
  pub tracker : Option Text

pub record TrackerDisposition : Type 0 where
  pub name : Text
  pub audience : Text
  pub included : ℕ
  pub withheld : List Text

pub record ExportPlan : Type 0 where
  pub files : List ExportedFile
  pub trackers : List TrackerDisposition
  pub excluded : List Text

unfoldable pub is_public : Text → Bool
is_public audience = audience == bytes "public"

unfoldable pub covers : List Text → Text → Bool
covers paths candidate = any (under candidate) paths

-- What the functions ask of a workspace on disk.
pub record Workspace : Type 0 where
  pub is_file : Text → Bool
  pub walk : Text → Result (List Text)
  pub symlinked_parent : Text → Option (Text × Text)

abbrev pub refuse_link : Text → Option (Text × Text) → Result (List Text) → Result (List Text)
refuse_link relative none found = found
refuse_link relative (some (link, target)) found =
    err (NewgitError.symlinked_parent relative link target)

module _ (w : Workspace) where
  unfoldable pub collect_one : Text → Result (List Text)
  collect_one relative = refuse_link relative (w.symlinked_parent relative) (w.walk relative)

  unfoldable pub collect_loop : List Text → Result (List Text)
  unfolding collect_one
  collect_loop [] = ok []
  collect_loop (relative ∷ paths) =
      collect_one relative >>= λ files. collect_loop paths >>= λ rest. ok (files ++ rest)

  -- The relative halves of `collect_files`'s pairs.
  unfoldable pub collect_files : List Text → Result (List Text)
  unfolding collect_loop
  collect_files paths = collect_loop paths >>= λ files. ok (sort_by path_cmp files)

-- What one pass adds to the plan.
pub record Fates : Type 0 where
  pub shipped : List ExportedFile
  pub held : List Text
  pub dropped : List Text

module _ (filters : ExportFilter) where
  -- The first loop: the source files.
  unfoldable pub plan_source : (Text → Bool) → List Text → Fates
  plan_source is_file [] = record { shipped = []; held = []; dropped = [] }
  plan_source is_file (path ∷ paths) =
      let rest = plan_source is_file paths in
      if not (is_file path)
      then rest
      else if covers filters.excludes path
      then record rest { dropped = path ∷ rest.dropped }
      else record rest {
        shipped = record { path = path; reason = source; tracker = none } ∷ rest.shipped;
      }

  -- The loop over one tracker's files.
  unfoldable pub plan_tracker : TrackerDefinition → List Text → Fates
  plan_tracker d [] = record { shipped = []; held = []; dropped = [] }
  plan_tracker d (relative ∷ found) =
      let rest = plan_tracker d found in
      let public = is_public d.audience in
      let is_forced = covers filters.includes relative in
      if covers filters.excludes relative
      then record rest { dropped = relative ∷ rest.dropped }
      else if not public && not is_forced
      then record rest { held = relative ∷ rest.held }
      else record rest {
        shipped =
            record {
              path = relative;
              reason = if public then public_tracker else forced;
              tracker = some d.name;
            }
            ∷ rest.shipped;
      }

  abbrev pub disposition : TrackerDefinition → Fates → TrackerDisposition
  disposition d fates = record {
    name = d.name;
    audience = d.audience;
    included = length fates.shipped;
    withheld = fates.held;
  }

  -- The loop over the trackers.
  unfoldable pub plan_trackers :
      Workspace
      → List TrackerDefinition
      → Result (List ExportedFile × List TrackerDisposition × List Text)
  plan_trackers w [] = ok ([], [], [])
  plan_trackers w (d ∷ trackers) = collect_files w d.paths >>= λ found.
      let fates = plan_tracker d found in
      plan_trackers w trackers >>= λ (files, dispositions, excluded).
      ok (fates.shipped ++ files, disposition d fates ∷ dispositions, fates.dropped ++ excluded)

  -- The loop over what an `--include` names, with the files so far.
  unfoldable pub plan_included : List ExportedFile → List Text → List ExportedFile
  plan_included files [] = files
  plan_included files (relative ∷ found) =
      if covers filters.excludes relative || any (λ f. same_path f.path relative) files
      then plan_included files found
      else plan_included
          (files ++ (record { path = relative; reason = forced; tracker = none } ∷ [])) found

  -- The last loop, over the includes.
  unfoldable pub plan_includes :
      Workspace → List Text → List ExportedFile → Result (List ExportedFile)
  plan_includes w [] files = ok files
  plan_includes w (include ∷ includes) files = collect_files w (include ∷ []) >>= λ found.
      plan_includes w includes (plan_included files found)

unfoldable pub plan :
    Workspace → List Text → List TrackerDefinition → ExportFilter → Result ExportPlan
plan w source_files trackers filters =
    let sources = plan_source filters w.is_file source_files in
    plan_trackers filters w trackers >>= λ (tracked, dispositions, excluded).
    plan_includes filters w filters.includes (sources.shipped ++ tracked) >>= λ files. ok (record {
      files = sort_by (λ f g. path_cmp f.path g.path) files;
      trackers = dispositions;
      excluded = dedup_by same_path (sort_by path_cmp (sources.dropped ++ excluded));
    })
