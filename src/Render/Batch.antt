-- ===== src/Render/Batch.antt =====
-- A render replaces all its finds at once (crates/newgit-core/src/render.rs: `substitute_spans`).
use newgit.Prelude.{
  ℕ, ◌+◌, ◌<◌, ◌≡◌, refl, ap, sym, ◌∙◌, inl, inr, List, [], ◌∷◌, ◌++◌, map, length, filter, In,
  arith, nat_eq, list_eq, ◌==◌, Bool-cases, ltb, length-append,
}
use mathlib.Core.List.{append-nil, append_assoc}
use mathlib.Core.Path.{ap₂}
use newgit.Text.{Text}
use newgit.Text.Slice.{drop, slice, slice-drop}
use newgit.Error.{ok, ok-injective, >>-eq-ok}
use newgit.Render.{
  Located, Span, Claim, Rule, rules, rule_at, finds_of, found_for, check_counts, locate,
  substitute_loop, substitute_spans,
}
use newgit.Render.Hits.{IsHit, locate-IsHit, rule_at-finds_of, check_counts-found}

-- A file as the render sees it: text that it leaves alone, and places of rules.
pub data Piece : Type 0 where
  kept : Text → Piece
  ruled : ℕ → Piece

-- The file, with a text for each rule.
abbrev pub written : (ℕ → Text) → List Piece → Text
written text [] = []
written text (kept t ∷ pieces) = t ++ written text pieces
written text (ruled i ∷ pieces) = text i ++ written text pieces

-- Where the rules' texts stand in it.
abbrev pub places : (ℕ → Text) → ℕ → List Piece → List Span
places text at [] = []
places text at (kept t ∷ pieces) = places text (at + length t) pieces
places text at (ruled i ∷ pieces) =
    record { rule = i; start = at; end = at + length (text i) }
    ∷ places text (at + length (text i)) pieces

abbrev pub rules_in : List Piece → List ℕ
rules_in [] = []
rules_in (kept t ∷ pieces) = rules_in pieces
rules_in (ruled i ∷ pieces) = i ∷ rules_in pieces

abbrev pub times : ℕ → List Piece → ℕ
times i pieces = length (filter (λ j. j == i) (rules_in pieces))

abbrev pub find_of : List Rule → ℕ → Text
find_of rules i = ((rule_at rules i).1).find_text

abbrev pub value_of : List Rule → ℕ → Text
value_of rules i = ((rule_at rules i).1).value

module _ (path committed : Text) (rules : List Rule) where
  -- What the loop makes of some hits, from a cursor and with what was written before.
  record Batch (hits : List Located) (cursor : ℕ) (output : Text) (spans : List Span) (out : Text)
      (all_spans : List Span) : Type 0 where
    pieces : List Piece
    reads : written (find_of rules) pieces ≡ drop cursor committed
    writes : output ++ written (value_of rules) pieces ≡ out
    spans_at : spans ++ places (value_of rules) (length output) pieces ≡ all_spans
    in_order : rules_in pieces ≡ map (λ hit. hit.rule) hits

  loop-Batch :
      (hits : List Located) (cursor previous : ℕ) (output : Text) (spans : List Span) (out : Text)
      (all_spans : List Span)
      → ((hit : Located) → In hit hits → IsHit (find_of rules) committed hit)
      → substitute_loop path committed rules hits cursor previous output spans ≡ ok (out, all_spans)
      → Batch hits cursor output spans out all_spans
  unfolding substitute_loop
  loop-Batch [] cursor previous output spans out all_spans f h =
      let pair : (output ++ drop cursor committed, spans) ≡ (out, all_spans) = ok-injective h in
      record {
        pieces = kept (drop cursor committed) ∷ [];
        reads = append-nil (drop cursor committed);
        writes = ap (λ t. output ++ t) (append-nil (drop cursor committed)) ∙ ap (λ r. r.0) pair;
        spans_at = append-nil spans ∙ ap (λ r. r.1) pair;
        in_order = refl;
      }
  loop-Batch (hit ∷ hits) cursor previous output spans out all_spans f h =
      elim (Bool-cases (ltb hit.start cursor)) [
        | inl k ↦ absurd (ground (arith, h, k))
        | inr k ↦
            let before = output ++ slice cursor hit.start committed in
            let after = before ++ value_of rules hit.rule in
            let span : Span = record {
              rule = hit.rule;
              start = length before;
              end = length after;
            } in
            let rest =
              loop-Batch hits hit.end hit.rule after (spans ++ span ∷ []) out all_spans
                (λ x m. f x (inr m)) (ground (arith, h, k)) in
            record {
              pieces = kept (slice cursor hit.start committed) ∷ ruled hit.rule ∷ rest.pieces;
              reads =
                  ap (λ t. slice cursor hit.start committed ++ (find_of rules hit.rule ++ t))
                    rest.reads
                  ∙ ap (λ t. slice cursor hit.start committed ++ t) (sym (f hit (inl refl)))
                  ∙ slice-drop cursor hit.start committed (ground (arith, k));
              writes =
                  sym (
                    append_assoc output (slice cursor hit.start committed)
                      (value_of rules hit.rule ++ written (value_of rules) rest.pieces))
                  ∙ sym (
                      append_assoc before (value_of rules hit.rule)
                        (written (value_of rules) rest.pieces))
                  ∙ rest.writes;
              spans_at =
                  ap₂
                    (λ start end.
                      spans
                      ++ record { rule = hit.rule; start = start; end = end }
                        ∷ places (value_of rules) end rest.pieces)
                    (sym (length-append output (slice cursor hit.start committed)))
                    (ap (λ n. n + length (value_of rules hit.rule))
                        (sym (length-append output (slice cursor hit.start committed)))
                      ∙ sym (length-append before (value_of rules hit.rule)))
                  ∙ sym (
                      append_assoc spans (span ∷ [])
                        (places (value_of rules) (length after) rest.pieces))
                  ∙ rest.spans_at;
              in_order = ap (λ is. hit.rule ∷ is) rest.in_order;
            }
      ]

times-found_for :
    (i : ℕ) (located : List Located) (pieces : List Piece)
    → rules_in pieces ≡ map (λ hit. hit.rule) located
    → times i pieces ≡ found_for located i
times-found_for i located pieces h =
    ap (λ is. length (filter (λ j. j == i) is)) h ∙ length-filter-map i located
  where
    length-filter-map :
        (i : ℕ) (hits : List Located)
        → length (filter (λ j. j == i) (map (λ hit. hit.rule) hits)) ≡ found_for hits i
    length-filter-map i [] = refl
    length-filter-map i (hit ∷ hits) = ground (arith, length-filter-map i hits)

-- When `substitute_spans` succeeds, the committed content is made of pieces that stay and of pieces that
-- are finds; the output is the same pieces with the values for the finds, the spans are the places of
-- the values in it, and each rule has as many pieces as it declares.
pub substitute_spans-pieces :
    (path committed : Text) (claims : List Claim) (output : Text) (spans : List Span)
    → substitute_spans path committed claims ≡ ok (output, spans)
    → (pieces : List Piece) × (written (find_of (rules claims)) pieces ≡ committed)
      × (written (value_of (rules claims)) pieces ≡ output)
      × (places (value_of (rules claims)) 0 pieces ≡ spans)
      × ((i : ℕ)
          → i < length (rules claims)
          → times i pieces ≡ ((rule_at (rules claims) i).1).count)
unfolding substitute_spans drop
substitute_spans-pieces path committed claims output spans h =
    let rs = rules claims in
    let located = locate committed (finds_of rs) in
    let (counted, looped) =
      >>-eq-ok (check_counts path located 0 rs)
        (substitute_loop path committed rs located 0 0 [] []) h in
    let batch =
      loop-Batch path committed rs located 0 0 [] [] output spans
        (λ hit m. locate-IsHit (find_of rs) committed (finds_of rs) hit (rule_at-finds_of rs) m)
        looped in
    (
      batch.pieces,
      batch.reads,
      batch.writes,
      batch.spans_at,
      λ i b.
          times-found_for i located batch.pieces batch.in_order
          ∙ ap (found_for located) {x = i} {y = 0 + i} (omega arith)
          ∙ check_counts-found path located 0 rs i counted b,
    )
