-- ===== src/Prelude/Lists.antt =====
-- Lists measured by native numbers, searches through them by a test, and predicates over them.
use Prim.Native.Nat.{ℕ, suc, ◌+◌, ◌≤◌}
use mathlib.Core.Path.{◌≡◌, refl}
use mathlib.Core.Bool.{Bool, true, false, ◌||◌, ◌&&◌}
use mathlib.Core.Logic.{◌⊎◌, inl, inr}
use mathlib.Core.List.{List, [], ◌∷◌, ◌++◌}
use mathlib.Core.Option.{Option, none, some}
use native.Mathlib.Omega.{arith}
use newgit.Prelude.Tests.{if◌then◌else◌}
use newgit.Prelude.Equality.{Eq, ◌==◌}

module _ {ℓ} {A : Type ℓ} where
  abbrev pub length : List A → ℕ
  length [] = 0
  length (x ∷ xs) = suc (length xs)

  -- `iter().any(p)`
  abbrev pub any : (A → Bool) → List A → Bool
  any p [] = false
  any p (x ∷ xs) = p x || any p xs

  abbrev pub all : (A → Bool) → List A → Bool
  all p [] = true
  all p (x ∷ xs) = p x && all p xs

  abbrev pub filter : (A → Bool) → List A → List A
  filter p [] = []
  filter p (x ∷ xs) = let rest = filter p xs in if p x then x ∷ rest else rest

  -- `iter().find(p)`
  abbrev pub find : (A → Bool) → List A → Option A
  find p [] = none
  find p (x ∷ xs) = if p x then some x else find p xs

  pub any-append : (p : A → Bool) (xs ys : List A) → any p (xs ++ ys) ≡ (any p xs || any p ys)
  any-append p [] ys = refl
  any-append p (x ∷ xs) ys = ground (arith, any-append p xs ys)

  pub length-append : (xs ys : List A) → length (xs ++ ys) ≡ length xs + length ys
  length-append [] ys = omega arith
  length-append (x ∷ xs) ys = omega (arith, length-append xs ys)

  pub length-filter-le : (p : A → Bool) (xs : List A) → length (filter p xs) ≤ length xs
  length-filter-le p [] = omega arith
  length-filter-le p (x ∷ xs) = ground (arith, length-filter-le p xs)

abbrev pub cons_some {ℓ} : {A : Type ℓ} → Option A → List A → List A
cons_some none xs = xs
cons_some (some x) xs = x ∷ xs

abbrev pub filter_map {ℓ κ} : {A : Type ℓ} {B : Type κ} → (A → Option B) → List A → List B
filter_map f [] = []
filter_map f (x ∷ xs) = cons_some (f x) (filter_map f xs)

cons_some-append {ℓ} :
    {A : Type ℓ} (o : Option A) (xs ys : List A) → cons_some o (xs ++ ys) ≡ cons_some o xs ++ ys
cons_some-append none xs ys = refl
cons_some-append (some x) xs ys = refl

pub filter_map-append {ℓ κ} :
    {A : Type ℓ} {B : Type κ} (f : A → Option B) (xs ys : List A)
    → filter_map f (xs ++ ys) ≡ filter_map f xs ++ filter_map f ys
filter_map-append f [] ys = refl
filter_map-append f (x ∷ xs) ys =
    rw (filter_map-append f xs ys) (cons_some-append (f x) (filter_map f xs) (filter_map f ys))

-- `xs.contains(&a)`
abbrev pub contains {ℓ} : {A : Type ℓ} ⦃e : Eq A⦄ → List A → A → Bool
contains xs a = any (λ x. x == a) xs

-- `xs` begins with the items of the first list.
abbrev pub is_prefix {ℓ} : {A : Type ℓ} ⦃e : Eq A⦄ → List A → List A → Bool
is_prefix [] ys = true
is_prefix (x ∷ xs) [] = false
is_prefix (x ∷ xs) (y ∷ ys) = x == y && is_prefix xs ys

-- Predicates that compute to tuples and sums, which the tactics read.
abbrev pub All {ℓ κ} : {A : Type ℓ} → (A → Type κ) → List A → Type κ
All P [] = Unit
All P (x ∷ xs) = P x × All P xs

abbrev pub Any {ℓ} : {A : Type ℓ} → (A → Type 0) → List A → Type 0
Any P [] = ⊥
Any P (x ∷ xs) = P x ⊎ Any P xs

module _ {ℓ} {A : Type ℓ} ⦃e : Eq A⦄ where
  pub is_prefix_refl : (xs : List A) → is_prefix xs xs ≡ true
  is_prefix_refl [] = refl
  is_prefix_refl (x ∷ xs) = ground (arith, is_prefix_refl xs)

  pub is_prefix_trans :
      (xs ys zs : List A) → is_prefix xs ys ≡ true → is_prefix ys zs ≡ true → is_prefix xs zs ≡ true
  is_prefix_trans [] ys zs h k = refl
  is_prefix_trans (x ∷ xs) [] zs h k = cc
  is_prefix_trans (x ∷ xs) (y ∷ ys) [] h k = cc
  is_prefix_trans (x ∷ xs) (y ∷ ys) (z ∷ zs) h k = ground (arith, is_prefix_trans xs ys zs)

  pub is_prefix_antisymm :
      (xs ys : List A) → is_prefix xs ys ≡ true → is_prefix ys xs ≡ true → xs ≡ ys
  is_prefix_antisymm [] [] h k = refl
  is_prefix_antisymm [] (y ∷ ys) h k = cc
  is_prefix_antisymm (x ∷ xs) [] h k = cc
  is_prefix_antisymm (x ∷ xs) (y ∷ ys) h k = ground (arith, is_prefix_antisymm xs ys)

  -- Two beginnings of one list are comparable.
  pub is_prefix_total :
      (xs ys zs : List A)
      → is_prefix xs zs ≡ true
      → is_prefix ys zs ≡ true
      → (is_prefix xs ys ≡ true) ⊎ (is_prefix ys xs ≡ true)
  is_prefix_total [] ys zs h k = inl refl
  is_prefix_total (x ∷ xs) [] zs h k = inr refl
  is_prefix_total (x ∷ xs) (y ∷ ys) [] h k = cc
  is_prefix_total (x ∷ xs) (y ∷ ys) (z ∷ zs) h k = ground (arith, is_prefix_total xs ys zs)

  pub is_prefix-append : (xs ys : List A) → is_prefix xs (xs ++ ys) ≡ true
  is_prefix-append [] ys = refl
  is_prefix-append (x ∷ xs) ys = ground (arith, is_prefix-append xs ys)

  pub length-is_prefix : (xs ys : List A) → is_prefix xs ys ≡ true → length xs ≤ length ys
  length-is_prefix [] ys h = omega arith
  length-is_prefix (x ∷ xs) [] h = cc
  length-is_prefix (x ∷ xs) (y ∷ ys) h = ground (arith, length-is_prefix xs ys)
