-- ===== src/Resource/Validate/Producing.antt =====
-- What a validated definition that declares `[identity] produces` promises to the install store
-- (crates/newgit-core/src/resource.rs: `check_identity_store`, `producing_action`).
use newgit.Prelude.{
  ◌≡◌, refl, subst, inl, inr, Bool, true, false, not, ◌&&◌, Option, none, some, List, [], ◌∷◌, all,
  any, find, arith, ◌==◌, nat_eq, list_eq, if◌then◌else◌, Option-cases,
}
use newgit.Text.{Text}
use newgit.Error.{ok, >>-eq-ok, guard, guard-ok}
use newgit.Resource.{ResourceDefinition, ActionSpec, IdentitySpec}
use newgit.Resource.Accessors.{
  get, is_some, and_then, is_empty_list, contains_path, producing_name, producing_action,
  runnable_prepare, identity_paths, identity_produces, paths_of, produces_of,
}
use newgit.Resource.Validate.{
  check_keyless, check_builder, check_produced, check_produces, check_filled, check_identity_store,
  validate,
}
use newgit.Resource.Validate.Checks.{validate-Passed}
use newgit.Resource.Validate.Inside.{all-each}

-- `prepare` runs at spawn, and all that it gives is the tree.
abbrev pub builds_tree : Option ActionSpec → Bool
builds_tree none = false
builds_tree (some prepare) =
    is_some prepare.command && not prepare.long_running && is_empty_list prepare.captures

-- No input of the key lies in a tree that it keys.
abbrev pub apart : List Text → List Text → Bool
apart inputs produces = all (λ produced. not (any (contains_path produced) inputs)) produces

find-any : (p : Text → Bool) (xs : List Text) → find p xs ≡ none → any p xs ≡ false
find-any p [] h = refl
find-any p (x ∷ xs) h = ground (arith, find-any p xs)

module _ (d : ResourceDefinition) where
  builder-builds :
      (prepare : Option ActionSpec)
      → check_builder d producing_name prepare ≡ ok tt
      → builds_tree (
          and_then prepare (λ action.
            if is_some action.command && not action.long_running then some action else none))
        ≡ true
  builder-builds none h = cc
  builder-builds (some prepare) h = ground arith

  produced-apart :
      (identity : IdentitySpec) (produced : Text)
      → check_produced d identity produced ≡ ok tt
      → not (any (contains_path produced) identity.paths) ≡ true
  unfolding check_produced
  produced-apart identity produced h =
      elim (Option-cases (find (contains_path produced) identity.paths)) [
        | inl e ↦ ground (arith, find-any (contains_path produced) identity.paths e)
        | inr (input, e) ↦ ground (arith, e)
      ]

  store_of :
      (identity : Option IdentitySpec)
      → check_identity_store d identity ≡ ok tt
      → is_empty_list (produces_of d identity) ≡ false
      → (producing_action d ≡ producing_name)
        × (builds_tree (runnable_prepare d) ≡ true)
        × (is_empty_list (paths_of d identity) ≡ false)
        × (apart (paths_of d identity) (produces_of d identity) ≡ true)
  unfolding check_identity_store runnable_prepare
  store_of none h n = cc
  store_of (some identity) h n =
      let (keyed, built) = >>-eq-ok (check_keyless d identity) (check_produces d identity) h in
      let filled : check_filled d identity ≡ ok tt =
        subst (λ b. (if b then ok tt else check_filled d identity) ≡ ok tt) n built in
      let (g, more) = >>-eq-ok (guard (producing_action d == producing_name) _) _ filled in
      let (b, apart_all) =
        >>-eq-ok (check_builder d (producing_action d) (get (producing_action d) d.actions)) _
          more in
      let named : producing_action d ≡ producing_name =
        ground (arith, guard-ok (producing_action d == producing_name) _ g) in
      (
        named,
        builder-builds (get producing_name d.actions)
            (subst (λ a. check_builder d a (get a d.actions) ≡ ok tt) named b),
        ground (arith, keyed, n),
        all-each (λ produced. not (any (contains_path produced) identity.paths))
            (check_produced d identity) (produced-apart identity) identity.produces apart_all,
      )

  -- In a definition that passes `validate` and produces a tree, `producing_action` is `prepare`,
  -- `runnable_prepare` finds it and it captures nothing, the key has paths, and none of them lies in a
  -- produced tree.
  pub validate-builds :
      validate d ≡ ok tt
      → is_empty_list (identity_produces d) ≡ false
      → (producing_action d ≡ producing_name)
        × (builds_tree (runnable_prepare d) ≡ true)
        × (is_empty_list (identity_paths d) ≡ false)
        × (apart (identity_paths d) (identity_produces d) ≡ true)
  validate-builds h n = store_of d.identity (validate-Passed d h).store n
