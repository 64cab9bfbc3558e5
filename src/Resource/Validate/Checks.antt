-- ===== src/Resource/Validate/Checks.antt =====
-- The checks that a validated resource definition has passed
-- (crates/newgit-core/src/resource.rs: `ResourceDefinition::validate`).
use newgit.Prelude.{◌≡◌, [], nat_eq, list_eq}
use newgit.Error.{ok, ◌>>◌, >>-eq-ok, each}
use newgit.Resource.{ResourceDefinition}
use newgit.Resource.Accessors.{or_else}
use newgit.Resource.Validate.{
  check_identity_paths, check_checkpoint, check_restore, check_checkpoint_restore_pairing,
  check_identity_store, check_workdir, check_action, check_suspend_resume_pairing, check_autostarts,
  check_read, check_render, validate,
}

pub record Passed (d : ResourceDefinition) : Type 0 where
  pub paths : check_identity_paths d d.identity ≡ ok tt
  pub checkpoint : check_checkpoint d d.checkpoint ≡ ok tt
  pub restore : check_restore d d.restore ≡ ok tt
  pub pairing : check_checkpoint_restore_pairing d ≡ ok tt
  pub store : check_identity_store d d.identity ≡ ok tt
  pub workdir : check_workdir d d.workdir ≡ ok tt
  pub actions : each (check_action d) d.actions ≡ ok tt
  pub suspends : check_suspend_resume_pairing d ≡ ok tt
  pub starts : check_autostarts d ≡ ok tt
  pub reads : each (check_read d) (or_else d.reads []) ≡ ok tt
  pub render : each (check_render d) d.render ≡ ok tt

pub validate-Passed : (d : ResourceDefinition) → validate d ≡ ok tt → Passed d
unfolding validate
validate-Passed d h =
    let k₁₁ = each (check_render d) d.render in
    let k₁₀ = each (check_read d) (or_else d.reads []) >> k₁₁ in
    let k₉ = check_autostarts d >> k₁₀ in
    let k₈ = check_suspend_resume_pairing d >> k₉ in
    let k₇ = each (check_action d) d.actions >> k₈ in
    let k₆ = check_workdir d d.workdir >> k₇ in
    let k₅ = check_identity_store d d.identity >> k₆ in
    let k₄ = check_checkpoint_restore_pairing d >> k₅ in
    let k₃ = check_restore d d.restore >> k₄ in
    let k₂ = check_checkpoint d d.checkpoint >> k₃ in
    let (p₁, h₂) = >>-eq-ok (check_identity_paths d d.identity) k₂ h in
    let (p₂, h₃) = >>-eq-ok (check_checkpoint d d.checkpoint) k₃ h₂ in
    let (p₃, h₄) = >>-eq-ok (check_restore d d.restore) k₄ h₃ in
    let (p₄, h₅) = >>-eq-ok (check_checkpoint_restore_pairing d) k₅ h₄ in
    let (p₅, h₆) = >>-eq-ok (check_identity_store d d.identity) k₆ h₅ in
    let (p₆, h₇) = >>-eq-ok (check_workdir d d.workdir) k₇ h₆ in
    let (p₇, h₈) = >>-eq-ok (each (check_action d) d.actions) k₈ h₇ in
    let (p₈, h₉) = >>-eq-ok (check_suspend_resume_pairing d) k₉ h₈ in
    let (p₉, h₁₀) = >>-eq-ok (check_autostarts d) k₁₀ h₉ in
    let (p₁₀, p₁₁) = >>-eq-ok (each (check_read d) (or_else d.reads [])) k₁₁ h₁₀ in
    record {
      paths = p₁;
      checkpoint = p₂;
      restore = p₃;
      pairing = p₄;
      store = p₅;
      workdir = p₆;
      actions = p₇;
      suspends = p₈;
      starts = p₉;
      reads = p₁₀;
      render = p₁₁;
    }
