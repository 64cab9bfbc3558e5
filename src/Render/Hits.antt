-- ===== src/Render/Hits.antt =====
-- What `locate` finds (crates/newgit-core/src/render.rs).
use newgit.Prelude.{
  ℕ, zero, suc, ◌+◌, ◌<◌, ◌≡◌, refl, ap, sym, subst, ◌∙◌, inl, inr, List, [], ◌∷◌, ◌++◌, length, In,
  arith, nat_eq, list_eq, ◌==◌, Bool-cases, In-append_cases, if◌then◌else◌,
}
use newgit.Prelude.Sort.{In-sort_by}
use newgit.Text.{Text, is_empty}
use newgit.Text.Slice.{drop, occurrences, occurrences-drop}
use newgit.Error.{ok, >>-eq-ok, guard}
use newgit.Render.{
  Located, hits_at, locate_from, by_place, locate, Rule, rule_at, text_at, finds_of, found_for,
  check_counts,
}

-- The text that a rule's index stands for is found at the hit.
abbrev pub IsHit : (ℕ → Text) → Text → Located → Type 0
IsHit text content hit = drop hit.start content ≡ text hit.rule ++ drop hit.end content

module _ (text : ℕ → Text) (content : Text) where
  hits_at-IsHit :
      (find : Text) (index : ℕ) (starts : List ℕ) (hit : Located)
      → ((p : ℕ) → In p starts → drop p content ≡ find ++ drop (p + length find) content)
      → text index ≡ find
      → In hit (hits_at find index starts)
      → IsHit text content hit
  hits_at-IsHit find index [] hit f e m = elim m [ ]
  hits_at-IsHit find index (start ∷ starts) hit f e (inl same) =
      subst (IsHit text content) same
        (f start (inl refl) ∙ ap (λ t. t ++ drop (start + length find) content) (sym e))
  hits_at-IsHit find index (start ∷ starts) hit f e (inr m) =
      hits_at-IsHit find index starts hit (λ p n. f p (inr n)) e m

  locate_from-IsHit :
      (index : ℕ) (finds : List Text) (hit : Located)
      → ((j : ℕ) → text (index + j) ≡ text_at finds j)
      → In hit (locate_from content index finds)
      → IsHit text content hit
  unfolding locate_from text_at
  locate_from-IsHit index [] hit h m = elim m [ ]
  locate_from-IsHit index (find ∷ finds) hit h m =
      let rest = locate_from content (suc index) finds in
      let here = hits_at find index (occurrences find content) in
      let later =
        locate_from-IsHit (suc index) finds hit
          (λ j. ap text {x = suc index + j} {y = index + suc j} (omega arith) ∙ h (suc j)) in
      elim (Bool-cases (is_empty find)) [
        | inl e ↦ later (subst (λ b. In hit (if b then rest else here ++ rest)) e m)
        | inr e ↦
            elim (In-append_cases hit here rest
              (subst (λ b. In hit (if b then rest else here ++ rest)) e m)) [
                | inl n ↦
                    hits_at-IsHit find index (occurrences find content) hit
                      (λ p i. occurrences-drop find p content i)
                      (ap text {x = index} {y = index + 0} (omega arith) ∙ h 0) n
                | inr n ↦ later n
              ]
      ]

  -- Each hit of `locate` is an occurrence of its rule's text.
  pub locate-IsHit :
      (finds : List Text) (hit : Located)
      → ((j : ℕ) → text j ≡ text_at finds j)
      → In hit (locate content finds)
      → IsHit text content hit
  unfolding locate
  locate-IsHit finds hit h m =
      locate_from-IsHit 0 finds hit (λ j. ap text {y = j} (omega arith) ∙ h j)
        (In-sort_by by_place hit (locate_from content 0 finds) m)

pub rule_at-finds_of :
    (rules : List Rule) (j : ℕ) → (rule_at rules j).1.find_text ≡ text_at (finds_of rules) j
unfolding rule_at text_at
rule_at-finds_of [] j = refl
rule_at-finds_of (rule ∷ rules) zero = refl
rule_at-finds_of (rule ∷ rules) (suc j) = rule_at-finds_of rules j

-- When the counts are checked, each rule is found as often as it declares.
pub check_counts-found :
    (path : Text) (located : List Located) (index : ℕ) (rules : List Rule) (j : ℕ)
    → check_counts path located index rules ≡ ok tt
    → j < length rules
    → found_for located (index + j) ≡ (rule_at rules j).1.count
unfolding check_counts rule_at
check_counts-found path located index [] j h b = absurd (omega (arith, b))
check_counts-found path located index (rule ∷ rules) zero h b =
    ap (found_for located) {x = index + 0} {y = index} (omega arith)
    ∙ ground (
      arith,
      >>-eq-ok (guard (found_for located index == (rule.1).count) _)
          (check_counts path located (suc index) rules) h,
    )
check_counts-found path located index (rule ∷ rules) (suc j) h b =
    ap (found_for located) {x = index + suc j} {y = suc index + j} (omega arith)
    ∙ check_counts-found path located (suc index) rules j
        (>>-eq-ok (guard (found_for located index == (rule.1).count) _)
          (check_counts path located (suc index) rules) h).1
        (omega (arith, b))
