-- ===== src/Resource/Validate/Recorded.antt =====
-- The refs that a validated definition's commands read are recorded
-- (crates/newgit-core/src/resource.rs: `check_state_ref_is_recordable`).
use newgit.Prelude.{◌≡◌, refl, Bool, true, false, ◌||◌, Option, none, some, arith, nat_eq, list_eq}
use newgit.Error.{ok, >>-eq-ok, guard-ok}
use newgit.Resource.{
  ResourceDefinition, CheckpointMode, no_checkpoint, hash_checkpoint, command_checkpoint,
  external_checkpoint, CheckpointSpec,
}
use newgit.Resource.Accessors.{is_some, mode_of}
use newgit.Resource.Validate.{
  check_mode, check_checkpoint, check_state_ref_is_recordable, check_checkpoint_restore_pairing,
  check_ref_use, ref_hint, restore_command, cleanup_command, uses_state_ref, validate,
}
use newgit.Resource.Validate.Checks.{validate-Passed}

-- A checkpoint that runs a command, or hands on a handle.
abbrev pub has_ref : Option CheckpointSpec → Bool
has_ref none = false
has_ref (some checkpoint) = elim checkpoint.mode [
  | no_checkpoint ↦ false
  | hash_checkpoint ↦ false
  | command_checkpoint ↦ is_some checkpoint.command
  | external_checkpoint ↦ is_some checkpoint.state_ref
]

abbrev pub reads_ref : ResourceDefinition → Bool
reads_ref d = uses_state_ref d (restore_command d) || uses_state_ref d (cleanup_command d)

module _ (d : ResourceDefinition) where
  ref-recorded :
      (mode : CheckpointMode) (checkpoint : CheckpointSpec)
      → checkpoint.mode ≡ mode
      → check_mode d mode checkpoint ≡ ok tt
      → check_ref_use d (ref_hint d mode true) ≡ ok tt
      → reads_ref d ≡ true
      → has_ref (some checkpoint) ≡ true
  ref-recorded no_checkpoint c e m r u = ground arith
  ref-recorded hash_checkpoint c e m r u = ground arith
  ref-recorded command_checkpoint c e m r u = rw e (guard-ok (is_some c.command) _ m)
  ref-recorded external_checkpoint c e m r u = rw e (guard-ok (is_some c.state_ref) _ m)

  recorded_by :
      (checkpoint : Option CheckpointSpec)
      → check_checkpoint d checkpoint ≡ ok tt
      → check_ref_use d (ref_hint d (mode_of d checkpoint) (is_some checkpoint)) ≡ ok tt
      → reads_ref d ≡ true
      → has_ref checkpoint ≡ true
  unfolding check_checkpoint
  recorded_by none m r u = ground arith
  recorded_by (some checkpoint) m r u = ref-recorded checkpoint.mode checkpoint refl m r u

  -- When a definition that passes `validate` has a restore command or a cleanup command that reads
  -- `{{state_ref}}`, its checkpoint records a ref: it runs a command that is given, or is external with a
  -- handle that is given.
  pub validate-has_ref : validate d ≡ ok tt → reads_ref d ≡ true → has_ref d.checkpoint ≡ true
  unfolding check_checkpoint_restore_pairing check_state_ref_is_recordable
  validate-has_ref h u =
      let p = validate-Passed d h in
      recorded_by d.checkpoint p.checkpoint
        (>>-eq-ok _ (check_state_ref_is_recordable d) p.pairing).1 u
