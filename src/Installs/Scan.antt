-- ===== src/Installs/Scan.antt =====
-- crates/newgit-core/src/installs.rs: `file_contains_any` answers for the whole file, however its reads fall.
use newgit.Prelude.{
  ℕ, zero, suc, ◌+◌, ◌-◌, ◌≤◌, ◌<◌, ◌≡◌, refl, sym, ap, ◌∙◌, Bool, true, false, not, ◌&&◌, ◌||◌,
  List, [], ◌∷◌, ◌++◌, length, ◌==◌, nat_eq, list_eq, if◌then◌else◌, ltb, arith, is_prefix,
  is_prefix_trans, is_prefix-append, length-append,
}
use mathlib.Core.List.{append_assoc, append-nil}
use newgit.Text.{Text, has_substring}
use newgit.Text.Slice.{take, drop, take-drop}
use newgit.Installs.{longest, matches, chunk, read_count, scan, file_contains_any}

not_below : (m n : ℕ) → ltb m n ≡ false → n ≤ m
not_below m n h = ground arith

-- A beginning is found in what it fits in.
is_prefix-longer : (p s t : Text) → length p ≤ length s → is_prefix p (s ++ t) ≡ is_prefix p s
is_prefix-longer [] s t h = refl
is_prefix-longer (c ∷ p) [] t h = absurd (omega (arith, h))
is_prefix-longer (c ∷ p) (d ∷ s) t h =
    ap (λ b. (c == d) && b) (is_prefix-longer p s t (omega (arith, h)))

-- A needle that does not stand in a window, and whose length less one is kept of it, stands in what is kept
-- with what follows, or nowhere.
has_substring-kept :
    (xs ys zs p : Text)
    → length p ≤ length ys + 1
    → has_substring (xs ++ ys) p ≡ false
    → has_substring (xs ++ (ys ++ zs)) p ≡ has_substring (ys ++ zs) p
unfolding has_substring
has_substring-kept [] ys zs p l h = refl
has_substring-kept (x ∷ xs) ys zs p l h =
    let fits : length p ≤ length (x ∷ (xs ++ ys)) = omega (arith, l, length-append xs ys) in
    let none_here : is_prefix p (x ∷ (xs ++ (ys ++ zs))) ≡ false =
      ap (λ t. is_prefix p (x ∷ t)) (sym (append_assoc xs ys zs))
      ∙ is_prefix-longer p (x ∷ (xs ++ ys)) zs fits
      ∙ ground (arith, h) in
    ap (λ b. b || has_substring (xs ++ (ys ++ zs)) p) none_here
    ∙ has_substring-kept xs ys zs p l (ground (arith, h))

matches-kept :
    (needles : List Text) (xs ys zs : Text)
    → longest needles ≤ length ys + 1
    → matches needles (xs ++ ys) ≡ false
    → matches needles (xs ++ (ys ++ zs)) ≡ matches needles (ys ++ zs)
unfolding longest
matches-kept [] xs ys zs l h = refl
matches-kept (needle ∷ needles) xs ys zs l h = ground (
  arith,
  has_substring-kept xs ys zs needle (ground (arith, l)) (ground (arith, h)),
  matches-kept needles xs ys zs (ground (arith, l)) (ground (arith, h)),
)

empty_found : (s : Text) → has_substring s [] ≡ true
unfolding has_substring
empty_found [] = refl
empty_found (c ∷ s) = refl

-- A window that matches, matches with what follows.
has_substring-append : (s t p : Text) → has_substring s p ≡ true → has_substring (s ++ t) p ≡ true
unfolding has_substring
has_substring-append [] t [] h = empty_found t
has_substring-append [] t (c ∷ p) h = cc
has_substring-append (x ∷ s) t p h = ground (
  arith,
  is_prefix_trans p (x ∷ s) (x ∷ (s ++ t)),
  is_prefix-append (x ∷ s) t,
  has_substring-append s t p,
  h,
)

matches-append :
    (needles : List Text) (s t : Text) → matches needles s ≡ true → matches needles (s ++ t) ≡ true
matches-append [] s t h = cc
matches-append (needle ∷ needles) s t h =
    ground (arith, has_substring-append s t needle, matches-append needles s t)

pub length-drop : (n : ℕ) (s : Text) → length (drop n s) ≡ length s - n
unfolding drop
length-drop zero s = omega arith
length-drop (suc n) [] = omega arith
length-drop (suc n) (c ∷ s) = omega (arith, length-drop n s)

length-take-le : (n : ℕ) (s : Text) → length (take n s) ≤ n
unfolding take
length-take-le zero s = omega arith
length-take-le (suc n) [] = omega arith
length-take-le (suc n) (c ∷ s) = omega (arith, length-take-le n s)

read_count_bounds :
    (size room : ℕ) → 0 < room → (0 < read_count size room) × (read_count size room ≤ room)
read_count_bounds size room h = ground arith

-- With fuel for every byte, the scan answers for the window and all that the file has left.
scan-matches :
    (sizes : ℕ → ℕ) (overlap : ℕ) (needles : List Text) (fuel round : ℕ) (rest window : Text)
    → longest needles ≤ overlap + 1
    → length window < overlap + chunk
    → length rest < fuel
    → scan sizes overlap needles fuel round rest window ≡ matches needles (window ++ rest)
unfolding scan
scan-matches sizes overlap needles zero round rest window l w f = absurd (omega (arith, f))
scan-matches sizes overlap needles (suc fuel) round [] window l w f =
    ap (matches needles) (sym (append-nil window))
scan-matches sizes overlap needles (suc fuel) round (c ∷ rest) window l w f =
    split (ltb (length filled) (overlap + chunk)) refl (matches needles filled) refl
      (λ window' k. scan-matches sizes overlap needles fuel (suc round) more window' l k shorter)
    ∙ ap (matches needles) whole
  where
    count : ℕ
    count = read_count (sizes round) (overlap + chunk - length window)

    bounds : (0 < count) × (count ≤ overlap + chunk - length window)
    bounds = read_count_bounds (sizes round) (overlap + chunk - length window) (omega (arith, w))

    filled : Text
    filled = window ++ take count (c ∷ rest)

    more : Text
    more = drop count (c ∷ rest)

    shorter : length more < fuel
    shorter = omega (arith, length-drop count (c ∷ rest), bounds.0, f)

    whole : filled ++ more ≡ window ++ (c ∷ rest)
    whole =
        append_assoc window (take count (c ∷ rest)) more
        ∙ ap (λ t. window ++ t) (take-drop count (c ∷ rest))

    next : Bool → Text
    next b = if b then filled else drop (length filled - overlap) filled

    kept : Text
    kept = drop (length filled - overlap) filled

    split :
        (b : Bool)
        → ltb (length filled) (overlap + chunk) ≡ b
        → (m : Bool) → matches needles filled ≡ m
        → ((window' : Text)
            → length window' < overlap + chunk
            → scan sizes overlap needles fuel (suc round) more window'
              ≡ matches needles (window' ++ more))
        → (if not b && m then true else scan sizes overlap needles fuel (suc round) more (next b))
          ≡ matches needles (filled ++ more)
    split true e m k ih = ih filled (ground (arith, e))
    split false e true k ih = sym (matches-append needles filled more k)
    split false e false k ih =
        let long : length kept ≡ overlap = omega (
          arith,
          length-drop (length filled - overlap) filled,
          not_below (length filled) (overlap + chunk) e,
        ) in
        let parts : take (length filled - overlap) filled ++ kept ≡ filled =
          take-drop (length filled - overlap) filled in
        ih kept (omega (arith, long))
        ∙ sym (
            matches-kept needles (take (length filled - overlap) filled) kept more
              (omega (arith, l, long)) (ap (matches needles) parts ∙ k))
        ∙ ap (matches needles) (
            sym (append_assoc (take (length filled - overlap) filled) kept more)
            ∙ ap (λ t. t ++ more) parts)

-- The scan of a file in chunks, whatever number of bytes each read returns, finds what stands anywhere in the file:
-- it answers whether some needle is a part of the content, and no if there is no needle but the empty one.
pub file_contains_any-matches :
    (sizes : ℕ → ℕ) (needles : List Text) (content : Text)
    → file_contains_any sizes needles content
      ≡ (if longest needles == 0 then false else matches needles content)
unfolding file_contains_any
file_contains_any-matches sizes needles content =
    ap (λ answer. if longest needles == 0 then false else answer)
      (scan-matches sizes (longest needles - 1) needles (suc (length content)) 0 content []
        (omega arith) (omega arith) (omega arith))
