-- ===== src/Objects/Trees.antt =====
-- crates/newgit-core/src/objects.rs: a tree's entries, their bytes and the store of trees. An id's tree is
-- read from the trees made or read before, and else from Git, which is a parameter, as SHA-1 is.
use Prim.Native.Nat.{◌/◌, ◌%◌}
use newgit.Prelude.{
  ℕ, zero, suc, ◌+◌, ◌-◌, ◌*◌, Bool, ◌&&◌, Option, none, some, List, [], ◌∷◌, ◌++◌, length, ltb,
  leb, ◌==◌, nat_eq, list_eq, if◌then◌else◌, cons_some,
}
use newgit.Prelude.Sort.{sort_by}
use newgit.Text.{Text, bytes, cmp}
use newgit.Text.Slice.{take, drop, slice}
use newgit.Objects.{one_on}

abbrev pub tree_mode : Text
tree_mode = bytes "40000"

abbrev pub empty_tree : Text
empty_tree = bytes "4b825dc642cb6eb9a060e54bf8d69288fbee4904"

pub record Entry : Type 0 where
  pub mode : Text
  pub name : Text
  pub id : Text

abbrev pub is_tree : Entry → Bool
is_tree entry = entry.mode == tree_mode

abbrev pub order_key : Entry → Text
order_key entry = if is_tree entry then entry.name ++ b'/' ∷ [] else entry.name

-- `entry_order` is `cmp` on the keys.
abbrev pub sorted_entries : List Entry → List Entry
sorted_entries entries = sort_by (λ left right. cmp (order_key left) (order_key right)) entries

abbrev pub hex_digit : ℕ → ℕ
hex_digit n = if ltb n 10 then n + 48 else n + 87

unfoldable pub hex : Text → Text
hex [] = []
hex (byte ∷ rest) = hex_digit (byte / 16) ∷ hex_digit (byte % 16) ∷ hex rest

abbrev pub digit_value : ℕ → Option ℕ
digit_value c =
    if leb b'0' c && leb c b'9'
    then some (c - 48)
    else if leb b'a' c && leb c b'f'
    then some (c - 87)
    else if leb b'A' c && leb c b'F'
    then some (c - 55)
    else none

abbrev pub both_digits : Option ℕ → Option ℕ → Option ℕ
both_digits none low = none
both_digits (some high) none = none
both_digits (some high) (some low) = some (16 * high + low)

-- `u8::from_str_radix`, of two characters: a `+` may stand first.
abbrev pub byte_of : ℕ → ℕ → Option ℕ
byte_of a b = if a == b'+' then digit_value b else both_digits (digit_value a) (digit_value b)

unfoldable pub unhex : Text → Text
unhex [] = []
unhex (a ∷ []) = []
unhex (a ∷ b ∷ rest) = cons_some (byte_of a b) (unhex rest)

unfoldable pub entry_bytes : Entry → Text
entry_bytes entry = entry.mode ++ (b' ' ∷ (entry.name ++ (0 ∷ unhex entry.id)))

-- A tree's body: its entries, one after the other.
unfoldable pub tree_body : List Entry → Text
tree_body [] = []
tree_body (entry ∷ entries) = entry_bytes entry ++ tree_body entries

unfoldable pub position : ℕ → Text → Option ℕ
position byte [] = none
position byte (c ∷ s) = let rest = position byte s in if c == byte then some 0 else one_on rest

-- One entry and what is left, if the entry is whole. Git writes no entry whose name ends before it begins.
abbrev pub entry_at_front : Text → Option ℕ → Option ℕ → Option (Entry × Text)
entry_at_front rest none nul = none
entry_at_front rest (some space) none = none
entry_at_front rest (some space) (some nul) =
    if ltb (length rest) (nul + 21)
    then none
    else some (
      record {
        mode = take space rest;
        name = slice (space + 1) nul rest;
        id = hex (slice (nul + 1) (nul + 21) rest);
      },
      drop (nul + 21) rest,
    )

abbrev pub entries_from : (Text → List Entry) → Option (Entry × Text) → List Entry
entries_from read none = []
entries_from read (some (entry, more)) = entry ∷ read more

-- The loop of `tree` over a body, on fuel: each entry takes bytes from it.
unfoldable pub read_entries : ℕ → Text → List Entry
read_entries zero rest = []
read_entries (suc fuel) rest =
    entries_from (read_entries fuel) (entry_at_front rest (position b' ' rest) (position 0 rest))

-- The entries of a tree's body, as `tree` reads them. A body has no more entries than bytes.
unfoldable pub parse_tree : Text → List Entry
parse_tree raw = read_entries (suc (length raw)) raw

-- What `make_tree` writes: the entries in Git's order.
unfoldable pub made_body : List Entry → Text
made_body entries = tree_body (sorted_entries entries)
