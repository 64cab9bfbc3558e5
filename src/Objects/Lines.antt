-- ===== src/Objects/Lines.antt =====
-- Lines of a commit's head, and the gap behind them (crates/newgit-core/src/objects.rs: `Commit::parse`).
use mathlib.Core.List.{append_assoc}
use newgit.Prelude.{
  ℕ, zero, suc, ◌+◌, ◌≡◌, refl, ap, sym, subst, ◌∙◌, Bool, true, false, not, ◌&&◌, Option, some,
  List, [], ◌∷◌, ◌++◌, all, length, ◌==◌, arith, nat_eq, list_eq, length-append,
}
use newgit.Text.{Text, split_on, is_empty}
use newgit.Text.Split.{lacks, split_on_part, split_on_whole}
use newgit.Objects.{newline, one_on, find}

-- A line of its own: not empty, and with no newline in it.
abbrev pub is_line : Text → Bool
is_line line = not (is_empty line) && lacks newline line

-- The lines, each with its newline.
abbrev pub ended : List Text → Text
ended [] = []
ended (line ∷ lines) = line ++ (newline ∷ ended lines)

-- The lines with newlines between them.
abbrev pub joined : Text → List Text → Text
joined line [] = line
joined line (next ∷ lines) = line ++ (newline ∷ joined next lines)

pub ended-joined :
    (line : Text) (lines : List Text) (s : Text)
    → ended (line ∷ lines) ++ s ≡ joined line lines ++ (newline ∷ s)
ended-joined line [] s = append_assoc line (newline ∷ []) s
ended-joined line (next ∷ lines) s =
    append_assoc line (newline ∷ ended (next ∷ lines)) s
    ∙ ap (λ t. line ++ (newline ∷ t)) (ended-joined next lines s)
    ∙ sym (append_assoc line (newline ∷ joined next lines) (newline ∷ s))

abbrev pub gap : Text
gap = newline ∷ newline ∷ []

further : ℕ → Option ℕ → Option ℕ
further zero o = o
further (suc n) o = one_on (further n o)

further-some : (n m : ℕ) → further n (some m) ≡ some (n + m)
unfolding further
further-some zero m = ap some (omega arith)
further-some (suc n) m = ap one_on (further-some n m) ∙ ap some (omega arith)

-- No gap begins inside a line.
find-line :
    (line s : Text)
    → lacks newline line ≡ true
    → find (line ++ s) gap ≡ further (length line) (find s gap)
unfolding find further
find-line [] s h = refl
find-line (c ∷ line) s h = ground (arith, h, find-line line s)

joined-head :
    (line : Text) (lines : List Text)
    → is_line line ≡ true
    → (c : ℕ) × (rest : Text) × (joined line lines ≡ c ∷ rest) × ((newline == c) ≡ false)
joined-head [] lines h = cc
joined-head (c ∷ line) [] h = (c, line, refl, ground (arith, h))
joined-head (c ∷ line) (next ∷ lines) h =
    (c, line ++ (newline ∷ joined next lines), refl, ground (arith, h))

find-newline :
    (c : ℕ) (rest s : Text)
    → (newline == c) ≡ false
    → find (newline ∷ ((c ∷ rest) ++ s)) gap ≡ one_on (find ((c ∷ rest) ++ s) gap)
unfolding find
find-newline c rest s h = ground (arith, h)

find-gap-here : (s : Text) → find (newline ∷ newline ∷ s) gap ≡ some 0
unfolding find
find-gap-here s = ground arith

-- The first gap of some lines is the one behind them.
pub find-gap :
    (line : Text) (lines : List Text) (s : Text)
    → is_line line ≡ true
    → all is_line lines ≡ true
    → find (joined line lines ++ (newline ∷ newline ∷ s)) gap ≡ some (length (joined line lines))
unfolding further
find-gap line [] s h a =
    find-line line (newline ∷ newline ∷ s) (ground (arith, h))
    ∙ ap (further (length line)) (find-gap-here s)
    ∙ further-some (length line) 0
    ∙ ap some (omega arith)
find-gap line (next ∷ lines) s h a =
    let (c, rest, starts, other) = joined-head next lines (ground (arith, a)) in
    let end = newline ∷ newline ∷ s in
    let behind : find (newline ∷ (joined next lines ++ end)) gap
        ≡ some (suc (length (joined next lines))) =
      subst (λ t. find (newline ∷ (t ++ end)) gap ≡ one_on (find (t ++ end) gap)) (sym starts)
        (find-newline c rest end other)
      ∙ ap one_on (find-gap next lines s (ground (arith, a)) (ground (arith, a))) in
    ap (λ t. find t gap) (append_assoc line (newline ∷ joined next lines) end)
    ∙ find-line line (newline ∷ (joined next lines ++ end)) (ground (arith, h))
    ∙ ap (further (length line)) behind
    ∙ further-some (length line) (suc (length (joined next lines)))
    ∙ ap some (sym (length-append line (newline ∷ joined next lines)))

pub split-joined :
    (line : Text) (lines : List Text)
    → is_line line ≡ true
    → all is_line lines ≡ true
    → split_on newline (joined line lines) ≡ line ∷ lines
split-joined line [] h a = split_on_whole newline line (ground (arith, h))
split-joined line (next ∷ lines) h a =
    split_on_part newline line (joined next lines) (ground (arith, h))
    ∙ ap (λ ls. line ∷ ls) (split-joined next lines (ground (arith, a)) (ground (arith, a)))

pub ended-line :
    (line : Text) (lines : List Text) (s : Text)
    → line ++ (newline ∷ (ended lines ++ s)) ≡ ended (line ∷ lines) ++ s
ended-line line lines s = sym (append_assoc line (newline ∷ ended lines) s)
