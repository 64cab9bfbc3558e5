-- ===== src/Render/Back.antt =====
-- Taking a render back out of the file it wrote (crates/newgit-core/src/render.rs: `reverse`).
use newgit.Prelude.{
  ℕ, ◌+◌, ◌≤◌, ◌≡◌, refl, ap, sym, ◌∙◌, false, List, [], ◌∷◌, ◌++◌, map, length, arith, nat_eq,
  list_eq, ltb, if◌then◌else◌,
}
use mathlib.Core.List.{append-nil, append_assoc}
use mathlib.Core.Path.{ap₂}
use newgit.Text.{Text}
use newgit.Text.Slice.{
  take, drop, slice, slice-drop, drop-drop, drop-append, slice-extend, slice_self,
}
use newgit.Error.{ok}
use newgit.Branch.{AppliedReplacement}
use newgit.Render.{
  Located, Span, Claim, Rule, rules, text_at, finds_of, locate, swap_loop, swap_every, reverse,
  substitute_spans,
}
use newgit.Render.Hits.{rule_at-finds_of}
use newgit.Render.Batch.{
  Piece, kept, ruled, written, places, find_of, value_of, substitute_spans-pieces,
}

abbrev pub hit_of : Span → Located
hit_of span = record { start = span.start; end = span.end; rule = span.rule }

module _ (content : Text) (to : List Text) (value : ℕ → Text) where
  behind :
      (t rest : Text) (at : ℕ) → drop at content ≡ t ++ rest → drop (at + length t) content ≡ rest
  behind t rest at h =
      sym (drop-drop at (length t) content) ∙ ap (drop (length t)) h ∙ drop-append t rest

  swap-pieces :
      (pieces : List Piece) (cursor at : ℕ) (output : Text)
      → cursor ≤ at
      → drop at content ≡ written value pieces
      → swap_loop content to (map hit_of (places value at pieces)) cursor output
        ≡ (output ++ slice cursor at content) ++ written (text_at to) pieces
  unfolding swap_loop
  swap-pieces [] cursor at output b h =
      ap (λ t. output ++ t)
        (sym (slice-drop cursor at content b) ∙ ap (λ t. slice cursor at content ++ t) h)
      ∙ sym (append_assoc output (slice cursor at content) [])
  swap-pieces (kept t ∷ pieces) cursor at output b h =
      swap-pieces pieces cursor (at + length t) output (omega (arith, b))
        (behind t (written value pieces) at h)
      ∙ ap (λ s. (output ++ s) ++ written (text_at to) pieces)
          (slice-extend cursor at t (written value pieces) content b h)
      ∙ ap (λ s. s ++ written (text_at to) pieces)
          (sym (append_assoc output (slice cursor at content) t))
      ∙ append_assoc (output ++ slice cursor at content) t (written (text_at to) pieces)
  swap-pieces (ruled i ∷ pieces) cursor at output b h =
      let end = at + length (value i) in
      let out = (output ++ slice cursor at content) ++ text_at to i in
      let rest =
        swap-pieces pieces end end out (omega arith)
          (behind (value i) (written value pieces) at h) in
      let not_before : ltb at cursor ≡ false = ground (arith, b) in
      ap
        (λ c.
          if c
          then swap_loop content to (map hit_of (places value end pieces)) cursor output
          else swap_loop content to (map hit_of (places value end pieces)) end out)
        not_before
      ∙ rest
      ∙ ap (λ s. (out ++ s) ++ written (text_at to) pieces) (slice_self end content)
      ∙ ap (λ s. s ++ written (text_at to) pieces) (append-nil out)
      ∙ append_assoc (output ++ slice cursor at content) (text_at to i)
          (written (text_at to) pieces)

written-eq :
    (f g : ℕ → Text) (pieces : List Piece)
    → ((i : ℕ) → f i ≡ g i)
    → written f pieces ≡ written g pieces
written-eq f g [] h = refl
written-eq f g (kept t ∷ pieces) h = ap (λ s. t ++ s) (written-eq f g pieces h)
written-eq f g (ruled i ∷ pieces) h = ap₂ (λ s t. s ++ t) (h i) (written-eq f g pieces h)

abbrev pub applied_of : List Rule → List AppliedReplacement
applied_of rules = map (λ (resource, rule). rule) rules

finds_of-applied : (rules : List Rule) → map (λ r. r.find_text) (applied_of rules) ≡ finds_of rules
finds_of-applied [] = refl
finds_of-applied (rule ∷ rules) = ap (λ ts. (rule.1).find_text ∷ ts) (finds_of-applied rules)

-- When a render succeeds and the values are found in its output at the places where it wrote them and
-- nowhere else, `reverse` takes the output back to the committed content.
pub reverse-substitute_spans :
    (path committed : Text) (claims : List Claim) (output : Text) (spans : List Span)
    → substitute_spans path committed claims ≡ ok (output, spans)
    → locate output (map (λ r. r.value) (applied_of (rules claims))) ≡ map hit_of spans
    → reverse output (applied_of (rules claims)) ≡ committed
unfolding reverse swap_every slice take drop
reverse-substitute_spans path committed claims output spans h l =
    let rs = rules claims in
    let (pieces, reads, writes, at, counts) =
      substitute_spans-pieces path committed claims output spans h in
    let to = map (λ r. r.find_text) (applied_of rs) in
    ap (λ hits. swap_loop output to hits 0 []) (l ∙ ap (map hit_of) (sym at))
    ∙ swap-pieces output to (value_of rs) pieces 0 0 [] (omega arith) (sym writes)
    ∙ written-eq (text_at to) (find_of rs) pieces
        (λ i. ap (λ ts. text_at ts i) (finds_of-applied rs) ∙ sym (rule_at-finds_of rs i))
    ∙ reads
