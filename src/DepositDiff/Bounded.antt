-- ===== src/DepositDiff/Bounded.antt =====
-- crates/newgit-core/src/deposit_diff.rs: `read_bounded_line` reads the beginning of the first line, however the
-- stream falls into buffers.
use newgit.Prelude.{
  ℕ, zero, suc, ◌-◌, ◌≡◌, refl, sym, ap, subst, ◌∙◌, Bool, true, false, Option, none, some, List,
  [], ◌∷◌, ◌++◌, length, arith, Bool-cases, inl, inr,
}
use mathlib.Core.List.{append_assoc, append-nil}
use newgit.Text.{Text}
use newgit.Text.Slice.{take}
use newgit.DepositDiff.{line_bytes, is_newline, cut, extended, unread, line_loop, read_bounded_line}

-- The stream that the buffers are pieces of.
abbrev pub stream : List Text → Text
stream [] = []
stream (buffer ∷ buffers) = buffer ++ stream buffers

take-extended : (n : ℕ) (s t : Text) → take n s ++ take (n - length (take n s)) t ≡ take n (s ++ t)
unfolding take
take-extended zero s t = ap (λ k. take k t) {x = 0 - 0} {y = 0} (omega arith)
take-extended (suc n) [] t = ap (λ k. take k t) {x = suc n - 0} {y = suc n} (omega arith)
take-extended (suc n) (c ∷ s) t =
    ap (λ k. c ∷ (take n s ++ take k t)) {x = suc n - suc (length (take n s))}
      {y = n - length (take n s)} (omega arith)
    ∙ ap (λ r. c ∷ r) (take-extended n s t)

stream-unread :
    (rest : Text) (buffers : List Text) → stream (unread rest buffers) ≡ rest ++ stream buffers
stream-unread [] buffers = refl
stream-unread (c ∷ rest) buffers = refl

-- A text without a newline is all before the cut.
cut-append_none :
    (s t : Text)
    → (cut s).1 ≡ none
    → ((cut s).0 ≡ s) × ((cut (s ++ t)).0 ≡ s ++ (cut t).0) × ((cut (s ++ t)).1 ≡ (cut t).1)
unfolding cut
cut-append_none [] t h = (refl, refl, refl)
cut-append_none (c ∷ s) t h = elim (Bool-cases (is_newline c)) [
  | inl e ↦ absurd (ground (arith, e, h))
  | inr e ↦
      let (a, b, d) = cut-append_none s t (ground (arith, e, h)) in
      (rw e (ap (λ r. c ∷ r) a), rw e (ap (λ r. c ∷ r) b), rw e d)
]

cut-append_some :
    (s t r : Text)
    → (cut s).1 ≡ some r
    → ((cut (s ++ t)).0 ≡ (cut s).0) × ((cut (s ++ t)).1 ≡ some (r ++ t))
unfolding cut
cut-append_some [] t r h = cc
cut-append_some (c ∷ s) t r h = elim (Bool-cases (is_newline c)) [
  | inl e ↦ (rw e refl, rw e (ap (λ q. some (q ++ t)) (ground (arith, e, h))))
  | inr e ↦
      let (a, b) = cut-append_some s t r (ground (arith, e, h)) in
      (rw e (ap (λ q. c ∷ q) a), rw e b)
]

abbrev pub behind : Option Text → Text
behind none = []
behind (some rest) = rest

-- The line is the beginning of what stands before the first newline, and what is left stands behind it.
abbrev pub IsLine : Text → Text → Option Text × List Text → Type 0
IsLine raw text (line, rest) =
    (line ≡ some (take line_bytes (raw ++ (cut text).0))) × (stream rest ≡ behind (cut text).1)

read_buffer-IsLine :
    (raw buffer : Text) (buffers : List Text) (seen : Bool)
    → ((raw : Text) → IsLine raw (stream buffers) (line_loop (take line_bytes raw) true buffers))
    → IsLine raw
        (buffer ++ stream buffers)
        (line_loop (take line_bytes raw) seen (buffer ∷ buffers))
unfolding line_loop
read_buffer-IsLine raw buffer buffers seen ih = split (cut buffer).1 refl
  where
    extends :
        extended (take line_bytes raw) (cut buffer).0 ≡ take line_bytes (raw ++ (cut buffer).0)
    extends = take-extended line_bytes raw (cut buffer).0

    split :
        (after : Option Text)
        → (cut buffer).1 ≡ after
        → IsLine raw (buffer ++ stream buffers) (elim after [
          | none ↦ line_loop (extended (take line_bytes raw) (cut buffer).0) true buffers
          | some rest ↦ (some (extended (take line_bytes raw) (cut buffer).0), unread rest buffers)
        ])
    split none e =
        let (a, b, d) = cut-append_none buffer (stream buffers) e in
        let line : extended (take line_bytes raw) (cut buffer).0 ≡ take line_bytes (raw ++ buffer) =
          extends ∙ ap (λ t. take line_bytes (raw ++ t)) a in
        let (l, r) =
          subst (λ t. IsLine (raw ++ buffer) (stream buffers) (line_loop t true buffers)) (sym line)
            (ih (raw ++ buffer)) in
        (
          l
              ∙ ap (λ t. some (take line_bytes t))
                  (append_assoc raw buffer (cut (stream buffers)).0 ∙ ap (λ t. raw ++ t) (sym b)),
          r ∙ ap behind (sym d),
        )
    split (some rest) e =
        let (a, b) = cut-append_some buffer (stream buffers) rest e in
        (
          ap some (extends ∙ ap (λ t. take line_bytes (raw ++ t)) (sym a)),
          stream-unread rest buffers ∙ ap behind (sym b),
        )

line_loop-IsLine :
    (raw : Text) (buffers : List Text)
    → IsLine raw (stream buffers) (line_loop (take line_bytes raw) true buffers)
unfolding line_loop cut
line_loop-IsLine raw [] = (ap (λ t. some (take line_bytes t)) (sym (append-nil raw)), refl)
line_loop-IsLine raw (buffer ∷ buffers) =
    read_buffer-IsLine raw buffer buffers true (λ raw. line_loop-IsLine raw buffers)

-- From a stream that has bytes left, the reader gives the first 484 bytes of what stands before the first newline,
-- and leaves what stands behind it, however the stream falls into buffers.
pub read_bounded_line_lem :
    (buffer : Text) (buffers : List Text)
    → IsLine [] (buffer ++ stream buffers) (read_bounded_line (buffer ∷ buffers))
unfolding read_bounded_line take
read_bounded_line_lem buffer buffers =
    read_buffer-IsLine [] buffer buffers false (λ raw. line_loop-IsLine raw buffers)
