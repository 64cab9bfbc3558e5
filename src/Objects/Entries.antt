-- ===== src/Objects/Entries.antt =====
-- A tree's bytes read back (crates/newgit-core/src/objects.rs: `make_tree`, `tree`).
use Prim.Native.Nat.{◌/◌, ◌%◌}
use mathlib.Core.List.{append_assoc}
use newgit.Prelude.{
  ℕ, zero, suc, ◌+◌, ◌-◌, ◌*◌, ◌≤◌, ◌<◌, ◌≡◌, refl, ap, sym, ◌∙◌, inl, inr, Bool, true, false, ◌&&◌,
  ◌||◌, some, List, [], ◌∷◌, ◌++◌, all, length, ltb, leb, ◌==◌, arith, nat_eq, list_eq,
  if◌then◌else◌, length-append, cons_some, Bool-cases,
}
use mathlib.Core.Path.{ap₂}
use newgit.Prelude.Sort.{all-sort_by}
use newgit.Text.{Text, cmp}
use newgit.Text.Split.{lacks}
use newgit.Text.Slice.{take, drop, slice, take-append, drop_behind, slice_middle}
use newgit.Objects.Trees.{
  Entry, hex_digit, hex, digit_value, byte_of, both_digits, unhex, entry_bytes, tree_body, position,
  entry_at_front, entries_from, order_key, sorted_entries, parse_tree, made_body, read_entries,
}

abbrev pub is_lower_hex : ℕ → Bool
is_lower_hex c = (leb 48 c && leb c 57) || (leb 97 c && leb c 102)

-- An id: 40 hexadecimal digits, as Git writes them.
abbrev pub is_object_id : Text → Bool
is_object_id id = length id == 40 && all is_lower_hex id

abbrev pub is_plain : Entry → Bool
is_plain entry =
    lacks 32 entry.mode && lacks 0 entry.mode && lacks 0 entry.name && is_object_id entry.id

digit_value-hex_digit :
    (c : ℕ)
    → is_lower_hex c ≡ true
    → (n : ℕ) × (digit_value c ≡ some n) × (hex_digit n ≡ c) × (n < 16)
digit_value-hex_digit c h = elim (Bool-cases (leb 48 c && leb c 57)) [
  | inl k ↦ (c - 48, rw k refl, ground (arith, k), ground (arith, k))
  | inr k ↦ (c - 87, ground (arith, k, h), ground (arith, k, h), ground (arith, k, h))
]

byte_of-digits :
    (a b m n : ℕ)
    → is_lower_hex a ≡ true
    → digit_value a ≡ some m
    → digit_value b ≡ some n
    → byte_of a b ≡ some (16 * m + n)
byte_of-digits a b m n h e k =
    let plain : (a == 43) ≡ false = ground (arith, h) in
    ap (λ t. if t then digit_value b else both_digits (digit_value a) (digit_value b)) plain
    ∙ ap₂ both_digits e k

high_digit : (m n : ℕ) → n < 16 → (16 * m + n) / 16 ≡ m
high_digit m n h = omega (arith, h)

low_digit : (m n : ℕ) → n < 16 → (16 * m + n) % 16 ≡ n
low_digit m n h = omega (arith, h)

unhex-digits :
    (a b m n : ℕ) (id : Text)
    → is_lower_hex a ≡ true
    → digit_value a ≡ some m
    → digit_value b ≡ some n
    → unhex (a ∷ b ∷ id) ≡ (16 * m + n) ∷ unhex id
unfolding unhex
unhex-digits a b m n id h e f = ap (λ o. cons_some o (unhex id)) (byte_of-digits a b m n h e f)

two-digits :
    (a b m n : ℕ) (id : Text)
    → is_lower_hex a ≡ true
    → digit_value a ≡ some m
    → digit_value b ≡ some n
    → hex_digit m ≡ a
    → hex_digit n ≡ b
    → m < 16
    → n < 16
    → hex (unhex id) ≡ id
    → hex (unhex (a ∷ b ∷ id)) ≡ a ∷ b ∷ id
unfolding hex
two-digits a b m n id h e f back forth m_small n_small same =
    ap hex (unhex-digits a b m n id h e f)
    ∙ ap₂ (λ x y. x ∷ y) (ap hex_digit (high_digit m n n_small) ∙ back)
        (ap₂ (λ x y. x ∷ y) (ap hex_digit (low_digit m n n_small) ∙ forth) same)

hex-unhex :
    (n : ℕ) (id : Text)
    → length id ≡ 2 * n
    → all is_lower_hex id ≡ true
    → (hex (unhex id) ≡ id) × (length (unhex id) ≡ n)
unfolding hex unhex
hex-unhex n [] l h = (refl, omega (arith, l))
hex-unhex n (a ∷ []) l h = absurd (omega (arith, l))
hex-unhex zero (a ∷ b ∷ id) l h = absurd (omega (arith, l))
hex-unhex (suc n) (a ∷ b ∷ id) l h =
    let (m, e, back, m_small) = digit_value-hex_digit a (ground (arith, h)) in
    let (k, f, forth, k_small) = digit_value-hex_digit b (ground (arith, h)) in
    let (same, long) = hex-unhex n id (omega (arith, l)) (ground (arith, h)) in
    (
      two-digits a b m k id (ground (arith, h)) e f back forth m_small k_small same,
      ap length (unhex-digits a b m k id (ground (arith, h)) e f) ∙ ap suc long,
    )

position-append :
    (c : ℕ) (s t : Text) → lacks c s ≡ true → position c (s ++ (c ∷ t)) ≡ some (length s)
unfolding position
position-append c [] t h = ground arith
position-append c (d ∷ s) t h = ground (arith, h, position-append c s t)

lacks-append : (c : ℕ) (s t : Text) → lacks c (s ++ t) ≡ (lacks c s && lacks c t)
lacks-append c [] t = refl
lacks-append c (d ∷ s) t = ground (arith, lacks-append c s t)

-- The first entry of a body, and what is behind it.
front-parts :
    (mode name raw more : Text)
    → lacks 32 mode ≡ true
    → lacks 0 mode ≡ true
    → lacks 0 name ≡ true
    → length raw ≡ 20
    → (rest : Text) → rest ≡ mode ++ (32 ∷ (name ++ (0 ∷ (raw ++ more))))
    → entry_at_front rest (position 32 rest) (position 0 rest)
      ≡ some (record { mode = mode; name = name; id = hex raw }, more)
front-parts mode name raw more m₁ m₂ n r rest same =
    let head = mode ++ (32 ∷ name) in
    let as_head : rest ≡ head ++ (0 ∷ (raw ++ more)) =
      same ∙ sym (append_assoc mode (32 ∷ name) (0 ∷ (raw ++ more))) in
    let as_space : rest ≡ (mode ++ 32 ∷ []) ++ (name ++ (0 ∷ (raw ++ more))) =
      same ∙ sym (append_assoc mode (32 ∷ []) (name ++ (0 ∷ (raw ++ more)))) in
    let as_nul : rest ≡ (head ++ 0 ∷ []) ++ (raw ++ more) =
      as_head ∙ sym (append_assoc head (0 ∷ []) (raw ++ more)) in
    let head_lacks : lacks 0 head ≡ true =
      lacks-append 0 mode (32 ∷ name) ∙ ground (arith, m₂, n) in
    let space : position 32 rest ≡ some (length mode) =
      ap (position 32) same ∙ position-append 32 mode _ m₁ in
    let nul : position 0 rest ≡ some (length head) =
      ap (position 0) as_head ∙ position-append 0 head _ head_lacks in
    let long : length head ≡ length mode + suc (length name) = length-append mode (32 ∷ name) in
    let whole : ltb (length rest) (length head + 21) ≡ false = ground (
      arith,
      ap length as_nul,
      length-append (head ++ 0 ∷ []) (raw ++ more),
      length-append head (0 ∷ []),
      length-append raw more,
      r,
    ) in
    let mode_read : take (length mode) rest ≡ mode =
      ap (take (length mode)) same ∙ take-append mode _ in
    let name_read : slice (length mode + 1) (length head) rest ≡ name =
      ap (slice (length mode + 1) (length head)) as_space
      ∙ slice_middle (length mode + 1) (length head) (mode ++ 32 ∷ []) name (0 ∷ (raw ++ more))
          (sym (length-append mode (32 ∷ [])))
          (omega (arith, long, length-append mode (32 ∷ []))) in
    let id_read : slice (length head + 1) (length head + 21) rest ≡ raw =
      ap (slice (length head + 1) (length head + 21)) as_nul
      ∙ slice_middle (length head + 1) (length head + 21) (head ++ 0 ∷ []) raw more
          (sym (length-append head (0 ∷ []))) (omega (arith, length-append head (0 ∷ []), r)) in
    let more_read : drop (length head + 21) rest ≡ more =
      ap (drop (length head + 21)) (as_nul ∙ sym (append_assoc (head ++ 0 ∷ []) raw more))
      ∙ drop_behind (length head + 21) ((head ++ 0 ∷ []) ++ raw) more
          (omega (arith, length-append (head ++ 0 ∷ []) raw, length-append head (0 ∷ []), r)) in
    rw (space, nul, whole, mode_read, name_read, id_read, more_read) refl

front-plain :
    (entry : Entry) (more : Text)
    → is_plain entry ≡ true
    → entry_at_front
        (entry_bytes entry ++ more)
        (position 32 (entry_bytes entry ++ more))
        (position 0 (entry_bytes entry ++ more))
      ≡ some (entry, more)
unfolding entry_bytes
front-plain entry more h =
    let (same, long) = hex-unhex 20 entry.id (ground (arith, h)) (ground (arith, h)) in
    front-parts entry.mode entry.name (unhex entry.id) more (ground (arith, h)) (ground (arith, h))
      (ground (arith, h)) long (entry_bytes entry ++ more)
      (append_assoc entry.mode (32 ∷ (entry.name ++ (0 ∷ unhex entry.id))) more
        ∙ ap (λ t. entry.mode ++ (32 ∷ t)) (append_assoc entry.name (0 ∷ unhex entry.id) more))
    ∙ ap (λ id. some (record { mode = entry.mode; name = entry.name; id = id }, more)) same

read_entries-tree_body :
    (fuel : ℕ) (entries : List Entry)
    → all is_plain entries ≡ true
    → length entries < fuel
    → read_entries fuel (tree_body entries) ≡ entries
unfolding read_entries tree_body position
read_entries-tree_body zero entries h b = absurd (omega (arith, b))
read_entries-tree_body (suc fuel) [] h b = refl
read_entries-tree_body (suc fuel) (entry ∷ entries) h b =
    ap (entries_from (read_entries fuel))
      (front-plain entry (tree_body entries) (ground (arith, h)))
    ∙ ap (λ es. entry ∷ es)
        (read_entries-tree_body fuel entries (ground (arith, h)) (omega (arith, b)))

length-tree_body : (entries : List Entry) → length entries ≤ length (tree_body entries)
unfolding tree_body entry_bytes
length-tree_body [] = omega arith
length-tree_body (entry ∷ entries) =
    let rest = entry.name ++ (0 ∷ unhex entry.id) in
    omega (
      arith,
      length-tree_body entries,
      length-append (entry.mode ++ (32 ∷ rest)) (tree_body entries),
      length-append entry.mode (32 ∷ rest),
    )

-- What `make_tree` writes for some entries, `tree` reads back as those entries in Git's order, when each
-- has a mode without a space or a zero byte, a name without a zero byte, and an id of 40 lower-case
-- hexadecimal digits.
pub parse_tree-made_body :
    (entries : List Entry)
    → all is_plain entries ≡ true
    → parse_tree (made_body entries) ≡ sorted_entries entries
unfolding parse_tree made_body
parse_tree-made_body entries h =
    let sorted = sorted_entries entries in
    read_entries-tree_body (suc (length (tree_body sorted))) sorted
      (all-sort_by is_plain (λ left right. cmp (order_key left) (order_key right)) entries ∙ h)
      (omega (arith, length-tree_body sorted))
