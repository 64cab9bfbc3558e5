-- ===== src/Error.antt =====
-- crates/newgit-core/src/error.rs: the errors that the modelled functions return, with the values
-- that they carry. An error's message is not modelled: a `Reason` stands for the text that a
-- definition is refused with.
use newgit.Prelude.{ℕ, ◌≡◌, refl, ap, subst, Bool, List, [], ◌∷◌, In, inl, inr}
use newgit.Text.{Text}

-- Why a checkpoint never records a ref that a command could be handed.
pub data Hint : Type 0 where
  mode_none no_checkpoint_declared mode_hash : Hint

pub data Reason : Type 0 where
  bad_maintainers bad_audience not_the_only_path bad_follow : Reason
  not_workspace_relative own_definition access_definition definition_outside_git reserved_path :
      Text → Reason
  hash_without_paths checkpoint_without_command external_without_state_ref : Reason
  restore_without_command external_recompute suspend_alone resume_alone : Reason
  key_without_paths key_command_without_paths : Reason
  recompute_undefined built_by_other built_by_undefined built_without_command built_long_running :
      Text → Reason
  action_empty long_running_without_command autostart_not_long_running not_waited_on : Text → Reason
  workdir_outside reads_outside render_empty render_outside empty_find : Text → Reason
  identity_path_reserved : Text → Text → Text → Reason
  identity_path_outside contains_input contains_produced : Text → Text → Reason
  count_in_produced count_zero : Text → Text → Reason
  state_ref_without_record : Text → Hint → Reason
  built_with_captures : Text → List Text → Reason
  many_autostarts : List Text → Reason

pub data NewgitError : Type 0 where
  tracker_path_conflict : Text → Text → Text → NewgitError
  invalid_definition : Text → Reason → NewgitError
  name_too_long : ℕ → ℕ → NewgitError
  invalid_name : Text → NewgitError
  no_port_scanning_up no_port_within : ℕ → NewgitError
  symlinked_parent : Text → Text → Text → NewgitError
  render_match_count : Text → Text → Text → ℕ → ℕ → NewgitError
  render_not_invertible : Text → Text → Text → ℕ → ℕ → NewgitError
  render_unresolved : Text → Text → Text → NewgitError
  render_overlapping_finds : Text → Text → Text → Text → NewgitError
  render_path_conflict : Text → Text → Text → Text → Text → NewgitError
  unsupported : Text → NewgitError
  source_command : Text → Text → NewgitError
  already_running : Text → ℕ → NewgitError
  other : Text → NewgitError

-- `Result<A>`
pub data Result {ℓ} (A : Type ℓ) : Type ℓ where
  ok : A → Result A
  err : NewgitError → Result A

abbrev value_or {ℓ} : {A : Type ℓ} → A → Result A → A
value_or a (ok b) = b
value_or a (err e) = a

pub ok-injective {ℓ} : {A : Type ℓ} {a b : A} → ok a ≡ ok b → a ≡ b
ok-injective {a} h = ap (value_or a) h

-- The operator `?`: the first error ends the function.
infixl 5 ◌>>=◌ ◌>>◌
abbrev pub ◌>>=◌ {ℓ κ} : {A : Type ℓ} {B : Type κ} → Result A → (A → Result B) → Result B
err refusal >>= next = err refusal
ok value >>= next = next value

-- `check?;` with what follows.
abbrev pub ◌>>◌ {κ} : {B : Type κ} → Result (Unit {0}) → Result B → Result B
check >> next = check >>= λ _. next

abbrev pub guard : Bool → NewgitError → Result (Unit {0})
guard b e = elim b [ Bool.true ↦ ok tt | Bool.false ↦ err e ]

-- A chain that succeeds handed a value on.
pub ok->>= {ℓ κ} :
    {A : Type ℓ} {B : Type κ} {result : B} (next : A → Result B) (step : Result A)
    → (step >>= next) ≡ ok result
    → (value : A) × (next value ≡ ok result) × (step ≡ ok value)
ok->>= next (err refusal) h = cc
ok->>= next (ok value) h = (value, h, refl)

-- A loop of checks: the first error ends it.
unfoldable pub each {ℓ} : {A : Type ℓ} → (A → Result (Unit {0})) → List A → Result (Unit {0})
each check [] = ok tt
each check (x ∷ xs) = check x >> each check xs

-- Both steps of a successful chain succeeded.
pub >>-eq-ok {ℓ} :
    {B : Type ℓ} (m : Result (Unit {0})) (k : Result B) {b : B}
    → (m >> k) ≡ ok b
    → (m ≡ ok tt) × (k ≡ ok b)
>>-eq-ok (ok u) k h = (refl, h)
>>-eq-ok (err e) k h = cc

pub each-ok :
    {A : Type 0} (check : A → Result (Unit {0})) (x : A) (xs : List A)
    → each check xs ≡ ok tt
    → In x xs
    → check x ≡ ok tt
unfolding each
each-ok check x [] h m = elim m [ ]
each-ok check x (y ∷ xs) h (inl e) =
    subst (λ z. check z ≡ ok tt) e (>>-eq-ok (check y) (each check xs) h).0
each-ok check x (y ∷ xs) h (inr m) = each-ok check x xs (>>-eq-ok (check y) (each check xs) h).1 m

pub guard-ok : (b : Bool) (refusal : NewgitError) → guard b refusal ≡ ok tt → b ≡ Bool.true
guard-ok Bool.true refusal h = refl
guard-ok Bool.false refusal h = cc

-- A test of the value, if there is one.
abbrev pub holds {ℓ} : {A : Type ℓ} → (A → Bool) → Result A → Bool
holds p (ok a) = p a
holds p (err e) = Bool.true

pub holds->>= {ℓ κ} :
    {A : Type ℓ} {B : Type κ} (p : A → Bool) (q : B → Bool) (m : Result A) (f : A → Result B)
    → holds p m ≡ Bool.true
    → ((a : A) → m ≡ ok a → p a ≡ Bool.true → holds q (f a) ≡ Bool.true)
    → holds q (m >>= f) ≡ Bool.true
holds->>= p q (ok a) f h k = k a refl h
holds->>= p q (err e) f h k = refl

pub holds-true {ℓ} : {A : Type ℓ} (m : Result A) → holds (λ a. Bool.true) m ≡ Bool.true
holds-true (ok a) = refl
holds-true (err e) = refl
