-- ===== src/Branch/Slug.antt =====
-- What a slug is made of (crates/newgit-core/src/branch.rs: `branch_slug`, `validate_name`).
use newgit.Prelude.{
  ℕ, ◌≤◌, ◌≡◌, refl, inl, inr, Bool, true, false, List, [], ◌∷◌, all, All, length, arith, ltb, ◌==◌,
  nat_eq, list_eq, Bool-cases,
}
use newgit.Text.{
  Text, is_empty, is_ascii_uppercase, is_ascii_alphanumeric, to_ascii_lowercase, trim_end_matches,
  trim_start_matches,
}
use newgit.Error.{ok}
use newgit.Branch.{
  str_len, max_name_len, starts_ok, name_char, validate_name, to_lowercase, lowercase, slug_loop,
  branch_slug,
}
use newgit.Branch.Tidy.{
  tidy, IsSlug, NoUpper, slug_loop-tidy, trim_end-tidy, trim_end-ends_plain, trim_start-tidy,
  trim_start-ends_plain, slug_loop_self, tidy-weaken, trim_end_self, trim_start_self,
  lower-no_upper, NoUpper-append,
}

abbrev pub Lowers : (ℕ → List ℕ) → Type 0
Lowers unicode_lowercase = (c : ℕ) → All (λ d. is_ascii_uppercase d ≡ false) (unicode_lowercase c)

module _ (u : ℕ → List ℕ) where
  to_lowercase-NoUpper : Lowers u → (c : ℕ) → NoUpper (to_lowercase u c)
  to_lowercase-NoUpper lowers c = elim (Bool-cases (ltb c 128)) [
    | inl e ↦ rw e (lower-no_upper c, tt)
    | inr e ↦ rw e (lowers c)
  ]

  lowercase-NoUpper : Lowers u → (s : Text) → NoUpper (lowercase u s)
  lowercase-NoUpper lowers [] = tt
  lowercase-NoUpper lowers (c ∷ s) =
      NoUpper-append (to_lowercase u c) (lowercase u s) (to_lowercase-NoUpper lowers c)
        (lowercase-NoUpper lowers s)

  branch_slug-IsSlug_of : (name : Text) → NoUpper (lowercase u name) → IsSlug (branch_slug u name)
  unfolding branch_slug
  branch_slug-IsSlug_of name h =
      let s = slug_loop false (lowercase u name) in
      let t = trim_end_matches b'-' s in
      (
        trim_start-tidy t (trim_end-tidy false s (slug_loop-tidy false (lowercase u name) h)),
        trim_start-ends_plain t (trim_end-ends_plain s),
      )

  lowercase-tidy : (previous : Bool) (s : Text) → tidy previous s ≡ true → lowercase u s ≡ s
  lowercase-tidy previous [] h = refl
  lowercase-tidy previous (c ∷ s) h = elim (Bool-cases (ltb c 128)) [
    | inl e ↦ rw e (ground (arith, lowercase-tidy true s, lowercase-tidy false s))
    | inr e ↦ absurd (ground arith)
  ]

  branch_slug_self : (s : Text) → IsSlug s → branch_slug u s ≡ s
  unfolding branch_slug
  branch_slug_self s (h, k) =
      rw (lowercase-tidy true s h, slug_loop_self false s (tidy-weaken s h), trim_end_self s k)
        (trim_start_self s h)

  -- A slug is its own slug.
  pub branch_slug_idem :
      Lowers u → (name : Text) → branch_slug u (branch_slug u name) ≡ branch_slug u name
  branch_slug_idem lowers name =
      branch_slug_self (branch_slug u name)
        (branch_slug-IsSlug_of name (lowercase-NoUpper lowers name))

  lowercase_name-NoUpper : (s : Text) → all name_char s ≡ true → NoUpper (lowercase u s)
  lowercase_name-NoUpper [] h = tt
  lowercase_name-NoUpper (c ∷ s) h = elim (Bool-cases (ltb c 128)) [
    | inl e ↦ rw e (lower-no_upper c, lowercase_name-NoUpper s (ground arith))
    | inr e ↦ absurd (ground arith)
  ]

  length-lowercase_name : (s : Text) → all name_char s ≡ true → length (lowercase u s) ≤ str_len s
  length-lowercase_name [] h = omega arith
  length-lowercase_name (c ∷ s) h = elim (Bool-cases (ltb c 128)) [
    | inl e ↦ rw e (ground (arith, length-lowercase_name s))
    | inr e ↦ absurd (ground arith)
  ]

length-slug_loop-le : (previous : Bool) (s : Text) → length (slug_loop previous s) ≤ length s
unfolding slug_loop
length-slug_loop-le previous [] = omega arith
length-slug_loop-le previous (c ∷ s) =
    ground (arith, length-slug_loop-le true s, length-slug_loop-le false s)

length-trim_end-le : (s : Text) → length (trim_end_matches b'-' s) ≤ length s
unfolding trim_end_matches
length-trim_end-le [] = omega arith
length-trim_end-le (c ∷ s) = ground (arith, length-trim_end-le s)

length-trim_start-le : (s : Text) → length (trim_start_matches b'-' s) ≤ length s
unfolding trim_start_matches
length-trim_start-le [] = omega arith
length-trim_start-le (c ∷ s) = ground (arith, length-trim_start-le s)

trim-nonempty :
    (c : ℕ) (s : Text)
    → (c == b'-') ≡ false
    → is_empty (trim_start_matches b'-' (trim_end_matches b'-' (c ∷ s))) ≡ false
unfolding trim_start_matches trim_end_matches
trim-nonempty c s h = ground arith

slug_loop-letter :
    (c : ℕ) (s : Text)
    → is_ascii_alphanumeric c ≡ true
    → slug_loop false (c ∷ s) ≡ c ∷ slug_loop false s
unfolding slug_loop
slug_loop-letter c s h = rw h

lower-alphanumeric :
    (c : ℕ)
    → is_ascii_alphanumeric c ≡ true
    → (is_ascii_alphanumeric (to_ascii_lowercase c) ≡ true)
      × ((to_ascii_lowercase c == b'-') ≡ false)
      × (ltb c 128 ≡ true)
lower-alphanumeric c h = ground arith

module _ (u : ℕ → List ℕ) where
  branch_slug-nonempty :
      (name : Text) → starts_ok name ≡ true → is_empty (branch_slug u name) ≡ false
  unfolding branch_slug
  branch_slug-nonempty [] h = cc
  branch_slug-nonempty (c ∷ name) h =
      let (a, d, small) = lower-alphanumeric c h in
      rw (small, slug_loop-letter (to_ascii_lowercase c) (lowercase u name) a)
        (trim-nonempty (to_ascii_lowercase c) (slug_loop false (lowercase u name)) d)

  length-branch_slug-le : (name : Text) → length (branch_slug u name) ≤ length (lowercase u name)
  unfolding branch_slug
  length-branch_slug-le name =
      let s = slug_loop false (lowercase u name) in
      omega (
        arith,
        length-trim_start-le (trim_end_matches b'-' s),
        length-trim_end-le s,
        length-slug_loop-le false (lowercase u name),
      )

  validate_name-parts :
      (name : Text)
      → validate_name name ≡ ok tt
      → (str_len name ≤ max_name_len) × (starts_ok name ≡ true) × (all name_char name ≡ true)
  unfolding validate_name
  validate_name-parts name h = ground arith

  -- The slug of a name that `validate_name` accepts is not empty, has 40 characters at most, and
  -- consists of lower-case letters, digits and single dashes, with no dash at either end.
  pub branch_slug-validated :
      (name : Text)
      → validate_name name ≡ ok tt
      → IsSlug (branch_slug u name)
        × (is_empty (branch_slug u name) ≡ false)
        × (length (branch_slug u name) ≤ max_name_len)
  branch_slug-validated name h =
      let (short, start, chars) = validate_name-parts name h in
      (
        branch_slug-IsSlug_of u name (lowercase_name-NoUpper u name chars),
        branch_slug-nonempty name start,
        omega (arith, length-branch_slug-le name, length-lowercase_name u name chars, short),
      )
