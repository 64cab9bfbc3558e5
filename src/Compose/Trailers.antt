-- ===== src/Compose/Trailers.antt =====
-- crates/newgit-core/src/compose.rs: the trailers' round trip.
use newgit.Prelude.{
  ◌≡◌, refl, ap, ◌∙◌, true, false, some, List, [], ◌∷◌, ◌++◌, all, nat_eq, list_eq,
  is_prefix-append, arith, All, Bool-cases, inl, inr,
}
use mathlib.Core.List.{append_assoc}
use newgit.Text.{Text, is_empty, starts_with, split_on}
use newgit.Text.Split.{lacks, split_on_part, split_on_whole, split_on-lacks}
use newgit.Compose.{
  newline, gap, split_trailer, header_trailer, split_ending, header_lines, with_split_trailers, pop,
  is_commit_id, strip_headers, from_block, parse_split,
}
use newgit.Compose.Lines.{
  split_ending-append, split_ending-is_blank, split_ending_whole, ends_in_text-append, has_no_gap,
  split_last_gap-append, has_no_gap_whole, has_no_gap_line, ends_in_text_lem, lacks-hexdigits,
  trailers, terminated,
}

module _ (last : Text) (e : is_empty last ≡ false) (l : lacks newline last ≡ true) where
  header_lines-has_no_gap :
      (lines : List Text)
      → All (λ p. lacks newline p ≡ true) lines
      → has_no_gap (newline ∷ (header_lines lines ++ last)) ≡ true
  unfolding header_lines nat_eq
  header_lines-has_no_gap [] a = has_no_gap_whole last l
  header_lines-has_no_gap (line ∷ lines) (h, a) = elim (Bool-cases (is_empty line)) [
    | inl k ↦ rw k (header_lines-has_no_gap lines a)
    | inr k ↦
        rw (k, append_assoc line (newline ∷ header_lines lines) last)
          (has_no_gap_line (header_trailer ++ line) (header_lines lines ++ last) refl h
            (header_lines-has_no_gap lines a))
  ]

  split_on-header_lines :
      (lines : List Text)
      → All (λ p. lacks newline p ≡ true) lines
      → split_on newline (header_lines lines ++ last) ≡ trailers lines ++ last ∷ []
  unfolding header_lines trailers nat_eq
  split_on-header_lines [] a = split_on_whole newline last l
  split_on-header_lines (line ∷ lines) (h, a) = elim (Bool-cases (is_empty line)) [
    | inl k ↦ rw k (split_on-header_lines lines a)
    | inr k ↦
        rw (k, append_assoc line (newline ∷ header_lines lines) last)
          (split_on_part newline (header_trailer ++ line) (header_lines lines ++ last) h
            ∙ ap (λ ls. (header_trailer ++ line) ∷ ls) (split_on-header_lines lines a))
  ]

pop-append : (lines : List Text) (last : Text) → pop (lines ++ last ∷ []) ≡ some (lines, last)
unfolding pop
pop-append [] last = refl
pop-append (line ∷ lines) last = rw (pop-append lines last) refl

starts_with-trailers :
    (lines : List Text) → all (λ line. starts_with line header_trailer) (trailers lines) ≡ true
unfolding trailers
starts_with-trailers [] = refl
starts_with-trailers (line ∷ lines) = elim (Bool-cases (is_empty line)) [
  | inl k ↦ rw k (starts_with-trailers lines)
  | inr k ↦ rw k (rw (is_prefix-append header_trailer line) (starts_with-trailers lines))
]

strip_headers-trailers : (lines : List Text) → strip_headers (trailers lines) ≡ terminated lines
unfolding trailers terminated
strip_headers-trailers [] = refl
strip_headers-trailers (line ∷ lines) = elim (Bool-cases (is_empty line)) [
  | inl k ↦ rw k (strip_headers-trailers lines)
  | inr k ↦ rw k (ap (λ t. line ++ newline ∷ t) (strip_headers-trailers lines))
]

append_regroup :
    (body lines source ending : Text)
    → body ++ (gap ++ (lines ++ (split_trailer ++ (source ++ ending))))
      ≡ (body ++ (gap ++ (lines ++ (split_trailer ++ source)))) ++ ending
append_regroup body lines source ending =
    rw
      (
        append_assoc body (gap ++ (lines ++ (split_trailer ++ source))) ending,
        append_assoc lines (split_trailer ++ source) ending,
      )
      refl

-- What `with_split_trailers` writes, `parse_split` reads back: the commit's id, the message byte
-- for byte, and the headers' lines that are not empty, each ended by a newline. The id is one: 40
-- hexadecimal digits.
pub parse_split-with_split_trailers :
    (message source headers : Text)
    → is_commit_id source ≡ true
    → parse_split (with_split_trailers message source headers)
      ≡ some (record {
        source = source;
        message = message;
        headers = terminated (split_on newline headers);
      })
unfolding parse_split with_split_trailers from_block nat_eq
parse_split-with_split_trailers message source headers h =
    rw
      (
        append_regroup (split_ending message).0 (header_lines lines) source
            (split_ending message).1,
        split_ending-append
            ((split_ending message).0 ++ (gap ++ (header_lines lines ++ (split_trailer ++ source))))
            (split_ending message).1
            (ends_in_text-append (split_ending message).0 _ (
              ends_in_text-append (gap ++ header_lines lines) (split_trailer ++ source)
                (ends_in_text_lem (split_trailer ++ source) refl l)))
            (split_ending-is_blank message),
        split_last_gap-append (split_ending message).0
            (header_lines lines ++ (split_trailer ++ source))
            (header_lines-has_no_gap (split_trailer ++ source) refl l lines
              (split_on-lacks newline headers)),
        split_on-header_lines (split_trailer ++ source) refl l lines
            (split_on-lacks newline headers),
        pop-append (trailers lines) (split_trailer ++ source),
      )
      (rw (h, starts_with-trailers lines, split_ending_whole message, strip_headers-trailers lines)
        refl)
  where
    lines : List Text
    lines = split_on newline headers

    l : lacks newline (split_trailer ++ source) ≡ true
    l = lacks-hexdigits source (ground (arith, h))
