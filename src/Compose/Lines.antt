-- ===== src/Compose/Lines.antt =====
-- Endings, gaps and lines of a message (crates/newgit-core/src/compose.rs).
use newgit.Prelude.{
  ◌≡◌, refl, ap, sym, ◌∙◌, Bool, true, false, not, ◌&&◌, none, some, List, [], ◌∷◌, ◌++◌, all, ◌==◌,
  nat_eq, list_eq, if◌then◌else◌, arith, Bool-cases, inl, inr,
}
use newgit.Text.{Text, is_empty}
use newgit.Text.Split.{lacks}
use newgit.Compose.{newline, gap, header_trailer, split_ending, split_last_gap, is_ascii_hexdigit}

-- Only newlines.
abbrev is_blank : Text → Bool
is_blank s = all (λ c. c == newline) s

-- The last byte is there and is no newline.
abbrev ends_in_text : Text → Bool
ends_in_text [] = false
ends_in_text (c ∷ []) = not (c == newline)
ends_in_text (c ∷ d ∷ s) = ends_in_text (d ∷ s)

split_ending_blank : (s : Text) → is_blank s ≡ true → split_ending s ≡ ([], s)
unfolding split_ending
split_ending_blank [] h = refl
split_ending_blank (c ∷ s) h = rw (split_ending_blank s (ground arith)) (ground arith)

pub split_ending-append :
    (s ending : Text)
    → ends_in_text s ≡ true
    → is_blank ending ≡ true
    → split_ending (s ++ ending) ≡ (s, ending)
unfolding split_ending
split_ending-append [] ending h b = cc
split_ending-append (c ∷ []) ending h b = rw (split_ending_blank ending b) (ground arith)
split_ending-append (c ∷ d ∷ s) ending h b =
    rw (split_ending-append (d ∷ s) ending h b) (ground arith)

pub split_ending-is_blank : (s : Text) → is_blank (split_ending s).1 ≡ true
unfolding split_ending
split_ending-is_blank [] = refl
split_ending-is_blank (c ∷ s) = elim (Bool-cases (is_empty (split_ending s).0 && c == newline)) [
  | inl e ↦ rw e (ground (arith, split_ending-is_blank s, e))
  | inr e ↦ rw e (split_ending-is_blank s)
]

is_empty_lem : (s : Text) → is_empty s ≡ true → s ≡ []
is_empty_lem [] h = refl
is_empty_lem (c ∷ s) h = cc

pub split_ending_whole : (s : Text) → (split_ending s).0 ++ (split_ending s).1 ≡ s
unfolding split_ending
split_ending_whole [] = refl
split_ending_whole (c ∷ s) = elim (Bool-cases (is_empty (split_ending s).0 && c == newline)) [
  | inl e ↦ rw e (
      ap (λ t. c ∷ t)
        (sym (
            ap (λ b. b ++ (split_ending s).1) (is_empty_lem (split_ending s).0 (ground (arith, e))))
          ∙ split_ending_whole s))
  | inr e ↦ rw e (ap (λ t. c ∷ t) (split_ending_whole s))
]

pub ends_in_text-append : (s t : Text) → ends_in_text t ≡ true → ends_in_text (s ++ t) ≡ true
ends_in_text-append [] t h = h
ends_in_text-append (c ∷ []) [] h = cc
ends_in_text-append (c ∷ []) (d ∷ t) h = h
ends_in_text-append (c ∷ d ∷ s) t h = ends_in_text-append (d ∷ s) t h

-- Text whose newlines stand alone, the first byte's left of it included.
abbrev pub has_no_gap : Text → Bool
has_no_gap [] = true
has_no_gap (c ∷ []) = true
has_no_gap (c ∷ d ∷ s) = not (c == newline && d == newline) && has_no_gap (d ∷ s)

split_last_gap-none : (s : Text) → has_no_gap s ≡ true → split_last_gap s ≡ none
unfolding split_last_gap
split_last_gap-none [] h = refl
split_last_gap-none (c ∷ []) h = refl
split_last_gap-none (c ∷ d ∷ s) h = rw (split_last_gap-none (d ∷ s) (ground arith)) (ground arith)

pub split_last_gap-append :
    (body block : Text)
    → has_no_gap (newline ∷ block) ≡ true
    → split_last_gap (body ++ (gap ++ block)) ≡ some (body, block)
unfolding split_last_gap nat_eq
split_last_gap-append [] block h = rw (split_last_gap-none (newline ∷ block) h) refl
split_last_gap-append (c ∷ body) block h = rw (split_last_gap-append body block h) refl

has_no_gap-part :
    (part rest : Text)
    → lacks newline part ≡ true
    → has_no_gap (newline ∷ rest) ≡ true
    → has_no_gap (part ++ newline ∷ rest) ≡ true
has_no_gap-part [] rest l h = h
has_no_gap-part (c ∷ []) rest l h = ground (arith, l, h)
has_no_gap-part (c ∷ d ∷ part) rest l h = ground (arith, l, has_no_gap-part (d ∷ part) rest)

pub has_no_gap_whole :
    (part : Text) → lacks newline part ≡ true → has_no_gap (newline ∷ part) ≡ true
has_no_gap_whole [] l = refl
has_no_gap_whole (c ∷ []) l = ground (arith, l)
has_no_gap_whole (c ∷ d ∷ part) l = ground (arith, l, has_no_gap_whole (d ∷ part))

pub has_no_gap_line :
    (part rest : Text)
    → is_empty part ≡ false
    → lacks newline part ≡ true
    → has_no_gap (newline ∷ rest) ≡ true
    → has_no_gap (newline ∷ (part ++ newline ∷ rest)) ≡ true
has_no_gap_line [] rest e l h = cc
has_no_gap_line (c ∷ part) rest e l h = ground (arith, has_no_gap-part (c ∷ part) rest l h)

pub ends_in_text_lem :
    (part : Text) → is_empty part ≡ false → lacks newline part ≡ true → ends_in_text part ≡ true
ends_in_text_lem [] e l = cc
ends_in_text_lem (c ∷ []) e l = ground (arith, l)
ends_in_text_lem (c ∷ d ∷ part) e l = ends_in_text_lem (d ∷ part) refl (ground (arith, l))

lacks-append :
    (s t : Text) → lacks newline s ≡ true → lacks newline t ≡ true → lacks newline (s ++ t) ≡ true
lacks-append [] t h k = k
lacks-append (c ∷ s) t h k = ground (arith, lacks-append s t)

pub lacks-hexdigits : (s : Text) → all is_ascii_hexdigit s ≡ true → lacks newline s ≡ true
lacks-hexdigits [] h = refl
lacks-hexdigits (c ∷ s) h = ground (arith, lacks-hexdigits s)

-- The lines that stay of some headers, as their trailers and as headers again.
unfoldable pub trailers : List Text → List Text
trailers [] = []
trailers (line ∷ lines) =
    let rest = trailers lines in if is_empty line then rest else (header_trailer ++ line) ∷ rest

unfoldable pub terminated : List Text → Text
terminated [] = []
terminated (line ∷ lines) =
    let rest = terminated lines in if is_empty line then rest else line ++ newline ∷ rest
