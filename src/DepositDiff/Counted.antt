-- ===== src/DepositDiff/Counted.antt =====
-- crates/newgit-core/src/deposit_diff.rs: `line_count` counts the lines of the whole file, however its reads fall.
use newgit.Prelude.{
  ℕ, zero, suc, ◌+◌, ◌<◌, ◌≡◌, refl, ap, ◌∙◌, Option, none, some, [], ◌∷◌, ◌++◌, length, filter,
  arith,
}
use newgit.Text.{Text}
use newgit.Text.Slice.{take, drop, take-drop}
use newgit.Installs.{smaller}
use newgit.Installs.Scan.{length-drop}
use newgit.DepositDiff.{is_newline, last_byte, unended, count_chunks, line_count}

newlines-append :
    (s t : Text)
    → length (filter is_newline (s ++ t))
      ≡ length (filter is_newline s) + length (filter is_newline t)
newlines-append [] t = omega arith
newlines-append (c ∷ s) t = ground (arith, newlines-append s t)

last_byte-append :
    (last : Option ℕ) (s t : Text) → last_byte (last_byte last s) t ≡ last_byte last (s ++ t)
last_byte-append last [] t = refl
last_byte-append last (c ∷ s) t = last_byte-append (some c) s t

count_chunks-whole :
    (sizes : ℕ → ℕ) (fuel round : ℕ) (rest : Text) (lines : ℕ) (last : Option ℕ)
    → length rest < fuel
    → count_chunks sizes fuel round rest lines last
      ≡ lines + length (filter is_newline rest) + unended (last_byte last rest)
unfolding count_chunks
count_chunks-whole sizes zero round rest lines last f = absurd (omega (arith, f))
count_chunks-whole sizes (suc fuel) round [] lines last f = omega arith
count_chunks-whole sizes (suc fuel) round (c ∷ rest) lines last f =
    let count = smaller (suc (sizes round)) 65536 in
    let chunk = take count (c ∷ rest) in
    let more = drop count (c ∷ rest) in
    let whole : chunk ++ more ≡ c ∷ rest = take-drop count (c ∷ rest) in
    count_chunks-whole sizes fuel (suc round) more (lines + length (filter is_newline chunk))
      (last_byte last chunk)
      (omega (arith, f, length-drop count (c ∷ rest), some_bytes (sizes round)))
    ∙ ap (λ n. n + unended (last_byte (last_byte last chunk) more))
        {x = lines + length (filter is_newline chunk) + length (filter is_newline more)}
        {y = lines + length (filter is_newline (chunk ++ more))}
        (omega (arith, newlines-append chunk more))
    ∙ ap (λ b. lines + length (filter is_newline (chunk ++ more)) + unended b)
        (last_byte-append last chunk more)
    ∙ ap (λ t. lines + length (filter is_newline t) + unended (last_byte last t)) whole
  where
    some_bytes : (size : ℕ) → 0 < smaller (suc size) 65536
    some_bytes size = ground arith

-- A file has a line for each newline and one more if its last byte is none, whatever number of bytes each read
-- returns.
pub line_count-whole :
    (sizes : ℕ → ℕ) (content : Text)
    → line_count sizes content
      ≡ length (filter is_newline content) + unended (last_byte none content)
unfolding line_count
line_count-whole sizes content =
    count_chunks-whole sizes (suc (length content)) 0 content 0 none (omega arith) ∙ omega arith
