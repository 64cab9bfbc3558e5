-- ===== src/Lib.antt =====
-- A model of newgit's core decisions: which tracker owns a path, which names and paths are allowed,
-- which ports an instance gets, which files an export lets out, and how a split commit's message
-- carries its origin. The program is crates/newgit-core; each file here names its source file.
--
-- The parts and how they interact. A tracker definition (crates/newgit-core/src/tracker.rs,
-- `TrackerDefinition`) claims paths of the workspace. Loading the definitions validates each
-- (`validate`) and then settles who owns what among all of them (`resolve_ownership`), which fills
-- each one's `excluded`; after that `owns` answers for one tracker and `owner_of` for the whole set.
-- The binding record of an instance (branch.rs, `BranchInstance`) holds the ports its resources
-- have. The allocator (ports.rs, `allocate`) scans around the ports of all records (`used_ports`),
-- and `check_ports` compares what listens on the host against the same records. An export
-- (export.rs, `plan`) walks the workspace, the trackers and the includes, and decides file by file.
-- Composition (compose.rs) writes into a root commit's message which view commit it was split from,
-- and reads it back. A resource's definition (resource.rs) has templates, whose `{{exports.<name>}}`
-- (exports.rs, `export_placeholders`) become edges of the resource graph (`data_edges`), which
-- `resolve_graph` puts in order, and whose `[[render]]` entries (render.rs) write an instance's values
-- into committed files, from which they are taken back out when the files are recorded.
-- The store of objects (objects.rs, `Objects`) reads and makes the trees that composition grafts. Each
-- command on an instance takes its lock (lock.rs), whose file `cleanup` (cleanup.rs) deletes when the
-- instance is gone. A long-running action is a supervised process (supervisor.rs); an action that
-- installs fills the install store (installs.rs) if no produced file names its workspace.
--
-- Which file models which part:
--   Text, Text/*         Rust's strings as lists of bytes, `split`, `trim_matches`, `cmp`
--   Paths                components, `starts_with` and equality of paths, `normalize_path`
--   Paths/Parts, Laws    lemmas and theorems on `normalize_path`
--   Paths/Links          `link_target_inside`, against a count of names and `..`
--   Error                `NewgitError` and `Result`
--   Tracker              `TrackerDefinition`, `owns`, `carved`, `mounted`, `owns_everything`
--   Tracker/Names        `child_id`, `leaf_name`, `name_fits_id`
--   Tracker/Define       `validate`, one function per check, in the code's order
--   Tracker/Build        `new`, `in_git`, `nest_under`, `with_added_paths`, `root`, `access`
--   Tracker/Ownership    `mount_holds`, `mount_depth`, `claim_on`, `owner_of`
--   Tracker/Resolve      `resolve_ownership`, one function per loop
--   Tracker/Greatest, Owner, Taken, Exclusive, Conflict, Reserved, Gap   lemmas and theorems
--   Branch               the binding record, `validate_name`, `branch_slug`, `new`, `with_base`
--   Branch/Tidy, Slug    lemmas and theorems on slugs
--   Ports, Ports/*       `used_ports`, `allocate`, `check_ports`
--   Export, Export/*     `plan`, `covers`, `collect_files`
--   Compose, Compose/*   `with_split_trailers`, `parse_split`
--   Templates            `render`, `export_placeholders`, `unresolved_placeholder` (exports.rs)
--   Resource             `ResourceDefinition`, the ownership table, `data_edges`
--   Resource/EnvNames    `check_env_names`; Declared, Collisions and Edges hold the theorems on names and edges
--   Resource/Order       `resolve_order` and `resolve_graph`; Order/* what the walk keeps and returns
--   Resource/Accessors   what a definition answers about itself (`runnable_prepare` and others)
--   Resource/Validate    `ResourceDefinition::validate`; Validate/* what a valid definition promises
--   Render               `locate`, `substitute_spans`, `compose`, `resolve`, `reverse` (render.rs)
--   Render/Check         `check`, `unrenderable`, `validate_disjoint`
--   Render/Edited        `reverse_rendered`
--   Render/Hits, Batch, Back, Counts   lemmas and theorems on renders
--   Objects              commits (objects.rs: `Commit::body`, `Commit::parse`)
--   Objects/Trees        the entries of trees (objects.rs)
--   Objects/Lines, Commits, Entries   the theorems on their bytes
--   Objects/Store        the store of objects: `tree`, `make_tree`, `entry_at`, `set_path` and others
--   Objects/Store/*, Objects/Distinct   what the store keeps and what a path in it reads as
--   Checkpoint           the records of checkpoints (checkpoint.rs)
--   Cleanup              `SnapshotRoots`, `orphan_workspaces` (cleanup.rs)
--   Cleanup/Purge, Kept, Orphans   the theorems on them
--   Supervisor           the files of a supervised resource: `state`, `start`, `retire_dead_pids`
--   Supervisor/Sweeps, Stop   `signal_group` and `stop`; the others hold theorems
--   Lock, Lock/Env       `acquire`, `prune` and `NEWGIT_LOCKED` (lock.rs); Lock/Excludes the theorem
--   Installs             `identity_key`, `file_contains_any` (installs.rs)
--   Installs/Walk        `find_path_reference` as steps of tasks in any order
--   Installs/Scan, Names, Ends   the theorems on the scan and the walk
--   DepositDiff          `read_bounded_line`, `line_count` (deposit_diff.rs)
--   Tests/*              runs of the functions and the theorems at concrete inputs
--
-- How the code is represented. A string or a byte slice is the list of its bytes; in Branch it is the
-- list of its characters, since `branch_slug` goes by characters; the other files compare the texts
-- of a binding record, whole or split at `/`, which comes to the same. A path is its text, compared by
-- components as camino and std::path do on Unix. A `BTreeMap` is a list of pairs, a `BTreeSet` of
-- ports a list. A loop with an early return is a function on the list that is left; state that a loop
-- changes is its result. Numbers are natural numbers: a port is at most 65535, and the checked
-- addition of the allocator is the test for that bound. An error carries the values that the code
-- puts into it; a text formatted for people is not modelled.
--
-- Fuel. `allocate` runs on fuel 1001, one more than the distance it scans: one unit for each port of
-- its window. `resolve_order` runs on fuel one more than there are resources: each visit that goes
-- deeper marks a resource that was not marked before. `read_entries` runs on one more than the bytes of
-- a tree, each of whose entries takes some. `scan` and `count_chunks` run on one more than the bytes of
-- the file, of which each round but the last takes some; `poll` counts down the fifty polls of `stop`.
-- `decimal` has as much fuel as its number, more than it has digits. All else is recursion on its input.
--
-- What is a parameter: the probe of one socket address, the walk of the disk below a path and the
-- symlinks on the way to one, whether a path is a file, the Unicode tables of cases outside ASCII, the
-- hashes (SHA-1, SHA-256, the one of a definition's revision), the repair of bytes that are no UTF-8,
-- what Git reads for an object's id, what a cleanup pass finds on disk (logs, lanes, heads, markers
-- and empty directories), which process groups are alive and which processes a listing of one names,
-- what a signal answers, the names and numbers of signals, and how many bytes a read returns.
--
-- What is not modelled: what reads or writes files, runs Git or other programs, or talks to the
-- remote (manager.rs, source.rs, store.rs, tracker_repo.rs, remote.rs and others); the
-- parsing of TOML and JSON, which libraries do; the command line in crates/newgit; and the Worker
-- under remote. Of compose.rs only the trailers are modelled; of objects.rs all but `overlay`, `files`,
-- `changed_paths` and the writing of what is pending; of checkpoint.rs the records and not the log; of
-- cleanup.rs all but the report; of ports.rs all but the reading of `lsof`; of export.rs all but the
-- check of the destination; of resource.rs all but the loading of definitions and the reading of
-- captures; of supervisor.rs all but the runs in the foreground, the reading of `ps` and the shell of
-- the wrapper; of lock.rs all but the making of a token; of installs.rs the key, the scan and the walk,
-- and not the copies; of deposit_diff.rs the readers. In the last four, reading and writing a file is
-- taken to succeed.
pub mod Prelude
pub mod Text
pub mod Paths
pub mod Error
pub mod Tracker
pub mod Branch
pub mod Ports
pub mod Export
pub mod Compose
pub mod Templates
pub mod Resource
pub mod Render
pub mod Objects
pub mod Checkpoint
pub mod Cleanup
pub mod Supervisor
pub mod Lock
pub mod Installs
pub mod DepositDiff
pub mod Tests
