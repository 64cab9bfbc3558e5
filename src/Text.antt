-- ===== src/Text.antt =====
-- Rust's strings: the bytes of their UTF-8, as a list of numbers, with the methods of `str` and
-- `[u8]` that the program calls.
pub mod Split
pub mod Order
pub mod Slice
use Prim.Native.Nat.{compare, Ordering, zero, ◌/◌, ◌%◌}
use Prim.Native.Char.{code}
use newgit.Prelude.Int.{ℤ, pos, negsuc}
use newgit.Prelude.{
  ℕ, suc, ◌+◌, ◌-◌, ◌*◌, ◌≡◌, refl, Bool, true, false, not, ◌&&◌, ◌||◌, Option, none, some, List,
  [], ◌∷◌, ◌++◌, arith, String, ltb, ◌==◌, Eq, nat_eq, list_eq, if◌then◌else◌, leb, is_prefix,
  length, any,
}

abbrev pub Text : Type 0
Text = List ℕ

-- A literal of ASCII characters.
abbrev pub bytes : String → Text
bytes String.[] = []
bytes (String.◌∷◌ c s) = code c ∷ bytes s

-- `s.starts_with(p)` on strings and byte slices
abbrev pub starts_with : Text → Text → Bool
starts_with s p = is_prefix p s

-- `s.ends_with(p)`
abbrev pub ends_with : Text → Text → Bool
ends_with [] p = p == []
ends_with (c ∷ s) p = p == (c ∷ s) || ends_with s p

-- `s.contains(p)`: `p` begins at some position.
unfoldable pub has_substring : Text → Text → Bool
has_substring [] p = is_prefix p []
has_substring (c ∷ s) p = is_prefix p (c ∷ s) || has_substring s p

abbrev pub is_empty : Text → Bool
is_empty [] = true
is_empty (c ∷ s) = false

-- `s.split(sep)`: always at least one part.
abbrev pub onto_head : ℕ → List Text → List Text
onto_head c [] = (c ∷ []) ∷ []
onto_head c (part ∷ parts) = (c ∷ part) ∷ parts

unfoldable pub split_on : ℕ → Text → List Text
split_on sep [] = [] ∷ []
split_on sep (c ∷ s) = let rest = split_on sep s in if c == sep then [] ∷ rest else onto_head c rest

-- `s.trim_end_matches(sep)`
unfoldable pub trim_end_matches : ℕ → Text → Text
trim_end_matches sep [] = []
trim_end_matches sep (c ∷ s) =
    let rest = trim_end_matches sep s in if is_empty rest && c == sep then [] else c ∷ rest

-- `s.trim_start_matches(sep)`
unfoldable pub trim_start_matches : ℕ → Text → Text
trim_start_matches sep [] = []
trim_start_matches sep (c ∷ s) = if c == sep then trim_start_matches sep s else c ∷ s

-- `s.trim()`, of ASCII blanks.
abbrev pub is_blank : ℕ → Bool
is_blank c = c == 32 || leb 9 c && leb c 13

unfoldable pub trim_blank_end : Text → Text
trim_blank_end [] = []
trim_blank_end (c ∷ s) =
    let rest = trim_blank_end s in if is_empty rest && is_blank c then [] else c ∷ rest

unfoldable pub trim_blank_start : Text → Text
trim_blank_start [] = []
trim_blank_start (c ∷ s) = if is_blank c then trim_blank_start s else c ∷ s

abbrev pub trim : Text → Text
trim s = trim_blank_end (trim_blank_start s)

abbrev pub is_ascii_lowercase : ℕ → Bool
is_ascii_lowercase c = leb b'a' c && leb c b'z'

abbrev pub is_ascii_uppercase : ℕ → Bool
is_ascii_uppercase c = leb b'A' c && leb c b'Z'

abbrev pub is_ascii_digit : ℕ → Bool
is_ascii_digit c = leb b'0' c && leb c b'9'

abbrev pub is_ascii_alphanumeric : ℕ → Bool
is_ascii_alphanumeric c = is_ascii_lowercase c || is_ascii_uppercase c || is_ascii_digit c

-- `u8::to_ascii_lowercase`
abbrev pub to_ascii_lowercase : ℕ → ℕ
to_ascii_lowercase c = if is_ascii_uppercase c then c + 32 else c

-- `str::cmp`: bytewise, a beginning of a text before it.
unfoldable pub cmp : Text → Text → Ordering
cmp [] [] = Ordering.eq
cmp [] (d ∷ t) = Ordering.lt
cmp (c ∷ s) [] = Ordering.gt
cmp (c ∷ s) (d ∷ t) = elim (compare c d) [
  | Ordering.lt ↦ Ordering.lt
  | Ordering.eq ↦ cmp s t
  | Ordering.gt ↦ Ordering.gt
]

-- `n.to_string()`. Dividing by ten ends before the fuel does.
decimal_loop : ℕ → ℕ → Text → Text
decimal_loop zero n digits = digits
decimal_loop (suc fuel) n digits =
    let more = decimal_loop fuel (n / 10) ((n % 10 + 48) ∷ digits) in
    if ltb n 10 then (n + 48) ∷ digits else more

unfoldable pub decimal : ℕ → Text
unfolding decimal_loop
decimal n = decimal_loop (suc n) n []

abbrev pub digits_from : ℕ → Text → Option ℕ
digits_from n [] = some n
digits_from n (c ∷ s) = if leb b'0' c && leb c b'9' then digits_from (10 * n + (c - 48)) s else none

-- A number written in digits, at least one.
abbrev pub unsigned : Text → Option ℕ
unsigned [] = none
unsigned (c ∷ s) = digits_from 0 (c ∷ s)

abbrev pub below : ℕ → Option ℕ → Option ℕ
below bound none = none
below bound (some n) = if ltb n bound then some n else none

-- `s.parse::<u32>()`
unfoldable pub parse_u32 : Text → Option ℕ
parse_u32 [] = none
parse_u32 (c ∷ s) = below 4294967296 (if c == b'+' then unsigned s else unsigned (c ∷ s))

abbrev pub negated : Option ℕ → Option ℤ
negated none = none
negated (some zero) = some (pos 0)
negated (some (suc n)) = some (negsuc n)

abbrev pub positive : Option ℕ → Option ℤ
positive none = none
positive (some n) = some (pos n)

-- `s.parse::<i32>()`
unfoldable pub parse_i32 : Text → Option ℤ
parse_i32 [] = none
parse_i32 (c ∷ s) =
    if c == b'-'
    then negated (below 2147483649 (unsigned s))
    else positive (below 2147483648 (if c == b'+' then unsigned s else unsigned (c ∷ s)))

-- `n.to_string()` of an `i32`
unfoldable pub decimal_int : ℤ → Text
decimal_int (pos n) = decimal n
decimal_int (negsuc n) = b'-' ∷ decimal (suc n)
