-- ===== src/Branch/Tidy.antt =====
-- What the loop and the trims of `branch_slug` leave (crates/newgit-core/src/branch.rs).
use newgit.Prelude.{
  ℕ, ◌≡◌, refl, Bool, true, false, not, ◌&&◌, ◌||◌, [], ◌∷◌, ◌++◌, All, arith, ◌==◌, nat_eq,
  list_eq, if◌then◌else◌,
}
use newgit.Text.{
  Text, is_ascii_lowercase, is_ascii_uppercase, is_ascii_digit, to_ascii_lowercase,
  trim_end_matches, trim_start_matches,
}
use newgit.Branch.{slug_loop}

abbrev slug_letter : ℕ → Bool
slug_letter c = is_ascii_lowercase c || is_ascii_digit c

-- Lower-case letters, digits and single dashes; the flag says that a dash stands before.
abbrev pub tidy : Bool → Text → Bool
tidy previous [] = true
tidy previous (c ∷ s) =
    let after_dash = not previous && tidy true s in
    let after_letter = slug_letter c && tidy false s in
    if c == b'-' then after_dash else after_letter

abbrev pub ends_plain : Text → Bool
ends_plain [] = true
ends_plain (c ∷ []) = not (c == b'-')
ends_plain (c ∷ d ∷ s) = ends_plain (d ∷ s)

-- A slug: tidy, and no dash at either end.
abbrev pub IsSlug : Text → Type 0
IsSlug s = (tidy true s ≡ true) × (ends_plain s ≡ true)

abbrev pub NoUpper : Text → Type 0
NoUpper = All (λ c. is_ascii_uppercase c ≡ false)

pub slug_loop-tidy :
    (previous : Bool) (s : Text) → NoUpper s → tidy previous (slug_loop previous s) ≡ true
unfolding slug_loop
slug_loop-tidy previous [] h = refl
slug_loop-tidy previous (c ∷ s) (h, hs) =
    ground (arith, slug_loop-tidy true s hs, slug_loop-tidy false s hs)

pub trim_end-tidy :
    (previous : Bool) (s : Text)
    → tidy previous s ≡ true
    → tidy previous (trim_end_matches b'-' s) ≡ true
unfolding trim_end_matches
trim_end-tidy previous [] h = refl
trim_end-tidy previous (c ∷ s) h = ground (arith, trim_end-tidy true s, trim_end-tidy false s)

pub trim_end-ends_plain : (s : Text) → ends_plain (trim_end_matches b'-' s) ≡ true
unfolding trim_end_matches
trim_end-ends_plain [] = refl
trim_end-ends_plain (c ∷ s) = ground (arith, trim_end-ends_plain s)

pub trim_start-tidy :
    (s : Text) → tidy false s ≡ true → tidy true (trim_start_matches b'-' s) ≡ true
unfolding trim_start_matches
trim_start-tidy [] h = refl
trim_start-tidy (c ∷ []) h = ground arith
trim_start-tidy (c ∷ d ∷ s) h = ground arith

pub trim_start-ends_plain :
    (s : Text) → ends_plain s ≡ true → ends_plain (trim_start_matches b'-' s) ≡ true
unfolding trim_start_matches
trim_start-ends_plain [] h = refl
trim_start-ends_plain (c ∷ []) h = ground arith
trim_start-ends_plain (c ∷ d ∷ s) h = ground (arith, trim_start-ends_plain (d ∷ s))

pub slug_loop_self :
    (previous : Bool) (s : Text) → tidy previous s ≡ true → slug_loop previous s ≡ s
unfolding slug_loop
slug_loop_self previous [] h = refl
slug_loop_self previous (c ∷ s) h = ground (arith, slug_loop_self true s, slug_loop_self false s)

pub tidy-weaken : (s : Text) → tidy true s ≡ true → tidy false s ≡ true
tidy-weaken [] h = refl
tidy-weaken (c ∷ s) h = ground arith

pub trim_end_self : (s : Text) → ends_plain s ≡ true → trim_end_matches b'-' s ≡ s
unfolding trim_end_matches
trim_end_self [] h = refl
trim_end_self (c ∷ []) h = ground arith
trim_end_self (c ∷ d ∷ s) h = rw (trim_end_self (d ∷ s) h)

pub trim_start_self : (s : Text) → tidy true s ≡ true → trim_start_matches b'-' s ≡ s
unfolding trim_start_matches
trim_start_self [] h = refl
trim_start_self (c ∷ s) h = ground arith

pub lower-no_upper : (c : ℕ) → is_ascii_uppercase (to_ascii_lowercase c) ≡ false
lower-no_upper c = ground arith

pub NoUpper-append : (s t : Text) → NoUpper s → NoUpper t → NoUpper (s ++ t)
NoUpper-append [] t h k = k
NoUpper-append (c ∷ s) t (h, hs) k = (h, NoUpper-append s t hs k)

-- `char::to_lowercase` leaves no upper-case ASCII letter.
