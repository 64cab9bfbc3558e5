-- ===== src/Text/Split.antt =====
-- `split_on` against concatenation.
use newgit.Prelude.{
  ℕ, ◌≡◌, ◌≢◌, refl, Bool, true, false, not, ◌&&◌, List, [], ◌∷◌, ◌++◌, arith, ◌==◌, nat_eq, All,
  inl, inr, Bool-cases,
}
use newgit.Text.{Text, split_on, onto_head}

-- A part that `split_on` gives: no separator in it.
abbrev pub lacks : ℕ → Text → Bool
lacks sep [] = true
lacks sep (c ∷ s) = not (c == sep) && lacks sep s

pub split_on_part :
    (sep : ℕ) (part s : Text)
    → lacks sep part ≡ true
    → split_on sep (part ++ sep ∷ s) ≡ part ∷ split_on sep s
unfolding split_on
split_on_part sep [] s h = ground arith
split_on_part sep (c ∷ part) s h = ground (arith, split_on_part sep part s)

pub split_on_whole : (sep : ℕ) (part : Text) → lacks sep part ≡ true → split_on sep part ≡ part ∷ []
unfolding split_on
split_on_whole sep [] h = refl
split_on_whole sep (c ∷ part) h = ground (arith, split_on_whole sep part)

onto_head-append :
    (c : ℕ) (parts : List Text) (p : Text)
    → parts ≢ []
    → onto_head c (parts ++ p ∷ []) ≡ onto_head c parts ++ p ∷ []
onto_head-append c [] p h = absurd (h refl)
onto_head-append c (x ∷ parts) p h = refl

onto_head-ne-nil : (c : ℕ) (parts : List Text) → onto_head c parts ≢ []
onto_head-ne-nil c [] h = cc
onto_head-ne-nil c (x ∷ parts) h = cc

pub split_on-ne-nil : (sep : ℕ) (s : Text) → split_on sep s ≢ []
unfolding split_on
split_on-ne-nil sep [] h = cc
split_on-ne-nil sep (c ∷ s) h = ground (arith, onto_head-ne-nil c (split_on sep s))

-- One more part behind the last separator.
pub split_on-snoc :
    (sep : ℕ) (s part : Text)
    → lacks sep part ≡ true
    → split_on sep (s ++ sep ∷ part) ≡ split_on sep s ++ part ∷ []
unfolding split_on
split_on-snoc sep [] part h = ground (arith, split_on_whole sep part h)
split_on-snoc sep (c ∷ s) part h = ground (
  arith,
  split_on-snoc sep s part h,
  onto_head-append c (split_on sep s) part (split_on-ne-nil sep s),
)

onto_head-lacks :
    (sep c : ℕ) (parts : List Text)
    → (c == sep) ≡ false
    → All (λ p. lacks sep p ≡ true) parts
    → All (λ p. lacks sep p ≡ true) (onto_head c parts)
onto_head-lacks sep c [] h a = ground arith
onto_head-lacks sep c (p ∷ parts) h a = ground arith

pub split_on-lacks : (sep : ℕ) (s : Text) → All (λ p. lacks sep p ≡ true) (split_on sep s)
unfolding split_on
split_on-lacks sep [] = ground arith
split_on-lacks sep (c ∷ s) = elim (Bool-cases (c == sep)) [
  | inl e ↦ rw e (refl, split_on-lacks sep s)
  | inr e ↦ rw e (onto_head-lacks sep c (split_on sep s) e (split_on-lacks sep s))
]
