-- ===== src/Resource/Validate/Running.antt =====
-- The actions that newgit runs by name, in a validated definition
-- (crates/newgit-core/src/resource.rs: `check_suspend_resume_pairing`, `autostart_action`).
use newgit.Prelude.{
  suc, ◌≤◌, ◌≡◌, refl, ap, subst, inl, inr, Bool, true, false, not, ◌&&◌, Option, none, some, List,
  [], ◌∷◌, map, filter, find, length, ltb, In, arith, nat_eq, list_eq, Bool-cases,
}
use mathlib.Core.Path.{ap₂}
use newgit.Text.{Text, bytes}
use newgit.Error.{ok, >>-eq-ok, guard-ok, each-ok}
use newgit.Resource.{ResourceDefinition, ActionSpec}
use newgit.Resource.Accessors.{get, is_some, autostart_action}
use newgit.Resource.Validate.{
  check_action, check_waited_on, check_both, check_suspend_resume_pairing, check_autostarts,
  autostarts, validate,
}
use newgit.Resource.Validate.Checks.{Passed, validate-Passed}

-- A command that finishes.
abbrev pub finishes : ActionSpec → Bool
finishes action = is_some action.command && not action.long_running

-- A process to supervise.
abbrev pub is_supervised : ActionSpec → Bool
is_supervised action = is_some action.command && action.long_running

abbrev pub both_or_neither : Option ActionSpec → Option ActionSpec → Bool
both_or_neither none none = true
both_or_neither none (some resume) = false
both_or_neither (some suspend) none = false
both_or_neither (some suspend) (some resume) = finishes suspend && finishes resume

abbrev pub is_autostart : Text × ActionSpec → Bool
is_autostart (name, action) = action.autostart

abbrev pub AtMostOneAutostart : Option (Text × ActionSpec) → List (Text × ActionSpec) → Type 0
AtMostOneAutostart none actions = filter is_autostart actions ≡ []
AtMostOneAutostart (some (name, action)) actions =
    (filter is_autostart actions ≡ (name, action) ∷ []) × (is_supervised action ≡ true)

find-In :
    {A : Type 0} (p : A → Bool) (xs : List A) (x : A) → find p xs ≡ some x → In x xs × (p x ≡ true)
find-In p [] x h = cc
find-In p (y ∷ ys) x h = elim (Bool-cases (p y)) [
  | inl e ↦ let same : y ≡ x = ground (arith, e) in (inl same, subst (λ z. p z ≡ true) same e)
  | inr e ↦ let (m, k) = find-In p ys x (ground (arith, e)) in (inr m, k)
]

length-zero : {A : Type 0} (xs : List A) → length xs ≤ 0 → xs ≡ []
length-zero [] h = refl
length-zero (x ∷ xs) h = absurd (omega (arith, h))

filter-find :
    {A : Type 0} (p : A → Bool) (xs : List A) (x : A)
    → find p xs ≡ some x
    → length (filter p xs) ≤ 1
    → filter p xs ≡ x ∷ []
filter-find p [] x h b = cc
filter-find p (y ∷ ys) x h b = elim (Bool-cases (p y)) [
  | inl e ↦
      let same : y ≡ x = ground (arith, e) in
      let none_left : filter p ys ≡ [] = length-zero (filter p ys) (ground (arith, e, b)) in
      rw e (ap₂ (λ z zs. z ∷ zs) same none_left)
  | inr e ↦ rw e (filter-find p ys x (ground (arith, e)) (ground (arith, e, b)))
]

filter-find-none : {A : Type 0} (p : A → Bool) (xs : List A) → find p xs ≡ none → filter p xs ≡ []
filter-find-none p [] h = refl
filter-find-none p (y ∷ ys) h = ground (arith, filter-find-none p ys)

length-autostarts :
    (actions : List (Text × ActionSpec))
    → length (map (λ (name, action). name) actions) ≡ length actions
length-autostarts [] = refl
length-autostarts (a ∷ actions) = ap suc (length-autostarts actions)

module _ (d : ResourceDefinition) where
  both-checked :
      (suspend resume : Option ActionSpec)
      → check_waited_on d (bytes "suspend") suspend ≡ ok tt
      → check_waited_on d (bytes "resume") resume ≡ ok tt
      → check_both d suspend resume ≡ ok tt
      → both_or_neither suspend resume ≡ true
  both-checked none none s r b = refl
  both-checked none (some resume) s r b = cc
  both-checked (some suspend) none s r b = cc
  both-checked (some suspend) (some resume) s r b = ground arith

  action-supervised :
      (action : Text × ActionSpec)
      → check_action d action ≡ ok tt
      → is_autostart action ≡ true
      → is_supervised (action.1) ≡ true
  unfolding check_action
  action-supervised (name, action) h a = ground arith

  autostart_from :
      (o : Option (Text × ActionSpec))
      → autostart_action d ≡ o
      → Passed d
      → AtMostOneAutostart o d.actions
  unfolding check_autostarts
  autostart_from none e p = filter-find-none is_autostart d.actions e
  autostart_from (some (name, action)) e p =
      let (m, k) = find-In is_autostart d.actions (name, action) e in
      let bound = guard-ok (not (ltb 1 (length (autostarts d)))) _ p.starts in
      (
        filter-find is_autostart d.actions (name, action) e
            (ground (arith, bound, length-autostarts (filter is_autostart d.actions))),
        action-supervised (name, action)
            (each-ok (check_action d) (name, action) d.actions p.actions m) k,
      )

  -- In a definition that passes `validate`, `suspend` and `resume` are both absent, or both are commands
  -- that finish; and `autostart_action` finds nothing only when no action is marked `autostart`, and
  -- otherwise finds the single one, which has a command and is long-running.
  pub validate-runs :
      validate d ≡ ok tt
      → (both_or_neither (get (bytes "suspend") d.actions) (get (bytes "resume") d.actions) ≡ true)
        × AtMostOneAutostart (autostart_action d) d.actions
  unfolding check_suspend_resume_pairing
  validate-runs h =
      let p = validate-Passed d h in
      let suspend = get (bytes "suspend") d.actions in
      let resume = get (bytes "resume") d.actions in
      let (s, rest) = >>-eq-ok (check_waited_on d (bytes "suspend") suspend) _ p.suspends in
      let (r, b) = >>-eq-ok (check_waited_on d (bytes "resume") resume) _ rest in
      (both-checked suspend resume s r b, autostart_from (autostart_action d) refl p)
