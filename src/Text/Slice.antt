-- ===== src/Text/Slice.antt =====
-- Slices of a text by byte offsets, and where a text occurs in another: `s[a..b]`, `find`, `matches`.
use newgit.Prelude.{
  ℕ, zero, suc, ◌+◌, ◌-◌, ◌≤◌, ◌≡◌, refl, ap, sym, ◌∙◌, Bool, true, not, ◌&&◌, List, [], ◌∷◌, ◌++◌,
  filter, length, arith, nat_eq, list_eq, is_prefix, In, inl, inr, Bool-cases, subst, leb, ltb,
  if◌then◌else◌,
}
use mathlib.Core.Path.{ap₂}
use newgit.Text.{Text, is_empty}

unfoldable pub take : ℕ → Text → Text
take zero s = []
take (suc n) [] = []
take (suc n) (c ∷ s) = c ∷ take n s

unfoldable pub drop : ℕ → Text → Text
drop zero s = s
drop (suc n) [] = []
drop (suc n) (c ∷ s) = drop n s

-- `s[from..to]`
unfoldable pub slice : ℕ → ℕ → Text → Text
slice from to s = take (to - from) (drop from s)

-- The offsets of `pattern` in a text that begins at `at`, each behind the end of the one before;
-- `skipped` counts what is left of a match.
unfoldable pub occurrences_from : Text → ℕ → ℕ → Text → List ℕ
occurrences_from pattern skipped at [] = []
occurrences_from pattern (suc skipped) at (c ∷ s) = occurrences_from pattern skipped (suc at) s
occurrences_from pattern zero at (c ∷ s) =
    let matched = occurrences_from pattern (length pattern - 1) (suc at) s in
    let kept = occurrences_from pattern zero (suc at) s in
    if is_prefix pattern (c ∷ s) then at ∷ matched else kept

-- `s.match_indices(pattern)`, for a pattern that is not empty.
abbrev pub occurrences : Text → Text → List ℕ
occurrences pattern s = occurrences_from pattern zero 0 s

-- A byte that begins a character.
abbrev pub begins_char : ℕ → Bool
begins_char c = not (leb 128 c && ltb c 192)

-- `s.matches(pattern).count()`: the empty pattern matches around every character.
unfoldable pub count_matches : Text → Text → ℕ
count_matches pattern s =
    if is_empty pattern then suc (length (filter begins_char s)) else length (occurrences pattern s)

pub take-drop : (n : ℕ) (s : Text) → take n s ++ drop n s ≡ s
unfolding take drop
take-drop zero s = refl
take-drop (suc n) [] = refl
take-drop (suc n) (c ∷ s) = ap (λ t. c ∷ t) (take-drop n s)

drop-nil : (n : ℕ) → drop n [] ≡ []
unfolding drop
drop-nil zero = refl
drop-nil (suc n) = refl

pub drop-drop : (m n : ℕ) (s : Text) → drop n (drop m s) ≡ drop (m + n) s
unfolding drop
drop-drop zero n s = ap (λ k. drop k s) (omega arith)
drop-drop (suc m) n [] = drop-nil n ∙ sym (drop-nil (suc m + n))
drop-drop (suc m) n (c ∷ s) =
    drop-drop m n s ∙ ap (λ k. drop k (c ∷ s)) {x = suc (m + n)} (omega arith)

pub slice-drop : (from to : ℕ) (s : Text) → from ≤ to → slice from to s ++ drop to s ≡ drop from s
unfolding slice
slice-drop from to s h =
    let behind : drop to s ≡ drop (to - from) (drop from s) =
      ap (λ k. drop k s) (omega (arith, h)) ∙ sym (drop-drop from (to - from) s) in
    ap (λ t. slice from to s ++ t) behind ∙ take-drop (to - from) (drop from s)

pub drop-is_prefix : (p s : Text) → is_prefix p s ≡ true → p ++ drop (length p) s ≡ s
unfolding drop
drop-is_prefix [] s h = refl
drop-is_prefix (c ∷ p) [] h = cc
drop-is_prefix (c ∷ p) (d ∷ s) h =
    ap₂ (λ x xs. x ∷ xs) (ground (arith, h)) (drop-is_prefix p s (ground (arith, h)))

pub drop-append : (s t : Text) → drop (length s) (s ++ t) ≡ t
unfolding drop
drop-append [] t = refl
drop-append (c ∷ s) t = drop-append s t

-- Where the pattern is found, it stands.
In-occurrences_from :
    (pattern : Text) (skipped at p : ℕ) (s : Text)
    → In p (occurrences_from pattern skipped at s)
    → (k : ℕ) × (p ≡ at + k) × (is_prefix pattern (drop k s) ≡ true)
unfolding occurrences_from drop
In-occurrences_from pattern skipped at p [] m = elim m [ ]
In-occurrences_from pattern (suc skipped) at p (c ∷ s) m =
    let (k, e, h) = In-occurrences_from pattern skipped (suc at) p s m in
    (suc k, omega (arith, e), h)
In-occurrences_from pattern zero at p (c ∷ s) m = elim (Bool-cases (is_prefix pattern (c ∷ s))) [
  | inl b ↦
      first b (In-occurrences_from pattern (length pattern - 1) (suc at) p s)
        (subst (λ t. In p (if t then at ∷ matched else kept)) b m)
  | inr b ↦
      let (k, e, h) =
        In-occurrences_from pattern zero (suc at) p s
          (subst (λ t. In p (if t then at ∷ matched else kept)) b m) in
      (suc k, omega (arith, e), h)
]
  where
    matched : List ℕ
    matched = occurrences_from pattern (length pattern - 1) (suc at) s

    kept : List ℕ
    kept = occurrences_from pattern zero (suc at) s

    first :
        is_prefix pattern (c ∷ s) ≡ true
        → (In p matched → (k : ℕ) × (p ≡ suc at + k) × (is_prefix pattern (drop k s) ≡ true))
        → In p (at ∷ matched)
        → (k : ℕ) × (p ≡ at + k) × (is_prefix pattern (drop k (c ∷ s)) ≡ true)
    first b ih (inl e) = (zero, omega (arith, e), b)
    first b ih (inr n) = let (k, e, h) = ih n in (suc k, omega (arith, e), h)

pub occurrences-drop :
    (pattern : Text) (p : ℕ) (s : Text)
    → In p (occurrences pattern s)
    → drop p s ≡ pattern ++ drop (p + length pattern) s
occurrences-drop pattern p s m =
    let (k, e, h) = In-occurrences_from pattern zero 0 p s m in
    let here : is_prefix pattern (drop p s) ≡ true =
      subst (λ n. is_prefix pattern (drop n s) ≡ true) {x = k} {y = p} (omega (arith, e)) h in
    sym (drop-is_prefix pattern (drop p s) here)
    ∙ ap (λ t. pattern ++ t) (drop-drop p (length pattern) s)

pub slice_self : (n : ℕ) (s : Text) → slice n n s ≡ []
unfolding slice take
slice_self n s = ap (λ k. take k (drop n s)) {x = n - n} {y = 0} (omega arith)

take-nil : (n : ℕ) → take n [] ≡ []
unfolding take
take-nil zero = refl
take-nil (suc n) = refl

pub take-append : (s t : Text) → take (length s) (s ++ t) ≡ s
unfolding take
take-append [] t = refl
take-append (c ∷ s) t = ap (λ r. c ∷ r) (take-append s t)

take-further : (n : ℕ) (s t r : Text) → drop n s ≡ t ++ r → take (n + length t) s ≡ take n s ++ t
unfolding take drop
take-further zero s t r h =
    ap (take (0 + length t)) h
    ∙ ap (λ k. take k (t ++ r)) {x = 0 + length t} {y = length t} (omega arith)
    ∙ take-append t r
take-further (suc n) [] [] r h = take-nil (suc n + 0)
take-further (suc n) [] (d ∷ t) r h = cc
take-further (suc n) (c ∷ s) t r h =
    ap (λ k. take k (c ∷ s)) {x = suc n + length t} {y = suc (n + length t)} (omega arith)
    ∙ ap (λ x. c ∷ x) (take-further n s t r h)

-- A slice that goes on through the text behind it.
pub slice-extend :
    (from to : ℕ) (t r s : Text)
    → from ≤ to
    → drop to s ≡ t ++ r
    → slice from (to + length t) s ≡ slice from to s ++ t
unfolding slice
slice-extend from to t r s b h =
    ap (λ k. take k (drop from s)) {x = to + length t - from} {y = (to - from) + length t}
      (omega (arith, b))
    ∙ take-further (to - from) (drop from s) t r (
        drop-drop from (to - from) s
        ∙ ap (λ k. drop k s) {x = from + (to - from)} {y = to} (omega (arith, b))
        ∙ h)

pub drop_behind : (n : ℕ) (s t : Text) → n ≡ length s → drop n (s ++ t) ≡ t
drop_behind n s t h = ap (λ k. drop k (s ++ t)) h ∙ drop-append s t

-- The middle of three texts.
pub slice_middle :
    (from to : ℕ) (a b c : Text)
    → from ≡ length a
    → to ≡ length a + length b
    → slice from to (a ++ (b ++ c)) ≡ b
unfolding slice
slice_middle from to a b c h k =
    ap (take (to - from)) (drop_behind from a (b ++ c) h)
    ∙ ap (λ n. take n (b ++ c)) {x = to - from} {y = length b} (omega (arith, h, k))
    ∙ take-append b c
