-- ===== src/Render/Counts.antt =====
-- `render --check` and the render count alike (crates/newgit-core/src/render.rs: `check`).
use newgit.Prelude.{
  ℕ, suc, ◌≡◌, refl, ap, sym, ◌∙◌, inl, inr, Bool, true, false, not, Option, none, some, List, [],
  ◌∷◌, map, all, ◌==◌, arith, nat_eq, list_eq, Bool-cases, ltb,
}
use mathlib.Core.List.{append-nil, flat_map}
use mathlib.Core.Path.{ap₂}
use newgit.Text.{Text}
use newgit.Error.{
  NewgitError, render_match_count, Result, ok, err, ok-injective, ◌>>=◌, ◌>>◌, ok->>=,
}
use newgit.Branch.{AppliedReplacement}
use newgit.Resource.{Replacement, RenderSpec}
use newgit.Templates.{RenderContext, unresolved_placeholder}
use newgit.Templates
use newgit.Render.{
  Located, Span, locate, found_for, expected_count, Rule, rules, rule_at, finds_of, check_counts,
  overlap, substitute_loop, substitute_spans, substitute, resolved, resolve_each, resolve,
}
use newgit.Render.Check.{is_ok, checks_from, check}

-- A render that fails for a count, and not for another reason.
abbrev pub is_count_error : NewgitError → Bool
is_count_error (render_match_count resource path find expected found) = true
is_count_error _ = false

abbrev pub fails_to_count {ℓ} : {A : Type ℓ} → Result A → Bool
fails_to_count (ok a) = false
fails_to_count (err refusal) = is_count_error refusal

overlap-kind : (path : Text) (left right : Rule) → is_count_error (overlap path left right) ≡ false
overlap-kind path (l, left) (r, right) = ground arith

loop-kind :
    (path committed : Text) (rules : List Rule) (hits : List Located) (cursor previous : ℕ)
    (output : Text) (spans : List Span)
    → fails_to_count (substitute_loop path committed rules hits cursor previous output spans)
      ≡ false
unfolding substitute_loop
loop-kind path committed rules [] cursor previous output spans = refl
loop-kind path committed rules (hit ∷ hits) cursor previous output spans =
    elim (Bool-cases (ltb hit.start cursor)) [
      | inl k ↦ rw k (overlap-kind path (rule_at rules previous) (rule_at rules hit.rule))
      | inr k ↦ rw k (loop-kind path committed rules hits hit.end hit.rule _ _)
    ]

module _ (resource path : Text) (context : RenderContext) where
  abbrev ruled_by : List AppliedReplacement → List Rule
  ruled_by applied = map (λ rule. (resource, rule)) applied

  resolved-keeps :
      (r : Replacement) (value : Text) (o : Option Text) (applied : AppliedReplacement)
      → resolved resource path r value o ≡ ok applied
      → (applied.find_text ≡ r.find_text) × (applied.count ≡ expected_count r)
  resolved-keeps r value (some placeholder) applied h = cc
  resolved-keeps r value none applied h =
      (ap (λ a. a.find_text) (sym (ok-injective h)), ap (λ a. a.count) (sym (ok-injective h)))

  resolved_from :
      (r : Replacement) (rest : List Replacement) (applied : List AppliedReplacement)
      → resolve_each resource path context (r ∷ rest) ≡ ok applied
      → (first : AppliedReplacement) × (more : List AppliedReplacement) × (applied ≡ first ∷ more)
        × (first.find_text ≡ r.find_text)
        × (first.count ≡ expected_count r)
        × (resolve_each resource path context rest ≡ ok more)
  unfolding resolve_each
  resolved_from r rest applied h =
      let (first, later, now) = ok->>= _ (resolved resource path r value unresolved) h in
      let (more, joined, rested) = ok->>= _ (resolve_each resource path context rest) later in
      let (named, counted) = resolved-keeps r value unresolved first now in
      (first, more, sym (ok-injective joined), named, counted, rested)
    where
      value : Text
      value = Templates.render r.with_text context

      unresolved : Option Text
      unresolved = unresolved_placeholder value

  finds-resolved :
      (rest : List Replacement) (applied : List AppliedReplacement)
      → resolve_each resource path context rest ≡ ok applied
      → finds_of (ruled_by applied) ≡ map (λ r. r.find_text) rest
  unfolding resolve_each
  finds-resolved [] [] h = refl
  finds-resolved [] (a ∷ applied) h = cc
  finds-resolved (r ∷ rest) applied h =
      let (first, more, same, named, counted, h') = resolved_from r rest applied h in
      ap (λ a. finds_of (ruled_by a)) same
      ∙ ap₂ (λ x xs. x ∷ xs) named (finds-resolved rest more h')

  counts-resolved :
      (located : List Located) (index : ℕ) (rest : List Replacement)
      (applied : List AppliedReplacement)
      → resolve_each resource path context rest ≡ ok applied
      → all is_ok (checks_from located index rest)
        ≡ not (fails_to_count (check_counts path located index (ruled_by applied)))
  unfolding check_counts resolve_each
  counts-resolved located index [] [] h = refl
  counts-resolved located index [] (a ∷ applied) h = cc
  counts-resolved located index (r ∷ rest) applied h =
      let (first, more, same, named, counted, h') = resolved_from r rest applied h in
      let here : (found_for located index == expected_count r)
          ≡ (found_for located index == first.count) =
        ap (λ n. found_for located index == n) (sym counted) in
      ground (
        arith,
        here,
        ap (λ a. fails_to_count (check_counts path located index (ruled_by a))) same,
        counts-resolved located (suc index) rest more h',
      )

check-kind :
    {B : Type 0} (path : Text) (located : List Located) (index : ℕ) (rules : List Rule)
    (next : Result B)
    → fails_to_count next ≡ false
    → fails_to_count (check_counts path located index rules >> next)
      ≡ fails_to_count (check_counts path located index rules)
unfolding check_counts
check-kind path located index [] next h = h
check-kind path located index ((resource, rule) ∷ rules) next h =
    elim (Bool-cases (found_for located index == rule.count)) [
      | inl k ↦ rw k (check-kind path located (suc index) rules next h)
      | inr k ↦ rw k refl
    ]

map-kind :
    {A B : Type 0} (m : Result A) (f : A → B)
    → fails_to_count (m >>= λ a. ok (f a)) ≡ fails_to_count m
map-kind (ok a) f = refl
map-kind (err refusal) f = refl

module _ (path content : Text) where
  abbrev rendering : List Rule → Result Text
  rendering rs =
      (check_counts path (locate content (finds_of rs)) 0 rs
        >> substitute_loop path content rs (locate content (finds_of rs)) 0 0 [] [])
      >>= λ (output, spans). ok output

  rendering-kind :
      (rs : List Rule)
      → fails_to_count (rendering rs)
        ≡ fails_to_count (check_counts path (locate content (finds_of rs)) 0 rs)
  rendering-kind rs =
      let located = locate content (finds_of rs) in
      map-kind (check_counts path located 0 rs >> substitute_loop path content rs located 0 0 [] [])
        (λ r. r.0)
      ∙ check-kind path located 0 rs (substitute_loop path content rs located 0 0 [] [])
          (loop-kind path content rs located 0 0 [] [])

-- For a spec whose templates are resolved, every line of `check` is in order exactly when a render of the
-- same content does not fail for a count.
pub check-substitute :
    (resource : Text) (spec : RenderSpec) (content : Text) (context : RenderContext)
    (applied : List AppliedReplacement)
    → resolve resource spec context ≡ ok applied
    → all is_ok (check spec content)
      ≡ not (
          fails_to_count
            (substitute spec.path content (record { resource = resource; applied = applied } ∷ [])))
unfolding resolve check substitute substitute_spans rules flat_map
check-substitute resource spec content context applied h =
    let path = spec.path in
    let located = locate content (map (λ r. r.find_text) spec.replace) in
    let rs = ruled_by resource path context applied in
    counts-resolved resource path context located 0 spec.replace applied h
    ∙ ap (λ finds. not (fails_to_count (check_counts path (locate content finds) 0 rs)))
        (sym (finds-resolved resource path context spec.replace applied h))
    ∙ ap not (sym (rendering-kind path content rs))
    ∙ ap (λ all_rules. not (fails_to_count (rendering path content all_rules)))
        (sym (append-nil rs))
