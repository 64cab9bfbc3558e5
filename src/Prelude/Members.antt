-- ===== src/Prelude/Members.antt =====
-- Membership in a list, and what the list functions do to it.
use mathlib.Core.Path.{◌≡◌, refl, ap, sym, subst, ◌∙◌}
use mathlib.Core.Bool.{Bool, true, false}
use mathlib.Core.Logic.{◌⊎◌, inl, inr}
use mathlib.Core.List.{List, [], ◌∷◌, ◌++◌, map}
use mathlib.Core.Option.{Option, none, some}
use native.Mathlib.Omega.{arith}
use newgit.Prelude.Tests.{if◌then◌else◌, Bool-cases}
use newgit.Prelude.Lists.{any, filter, find, filter_map, cons_some, Any}

-- `x` stands in the list.
abbrev pub In : {A : Type 0} → A → List A → Type 0
In x xs = Any (λ y. y ≡ x) xs

module _ {A : Type 0} where
  pub any-witness :
      (p : A → Bool) (xs : List A) → any p xs ≡ true → (x : A) × In x xs × (p x ≡ true)
  any-witness p [] h = cc
  any-witness p (x ∷ xs) h = elim (Bool-cases (p x)) [
    | inl e ↦ (x, inl refl, e)
    | inr e ↦ let (y, m, k) = any-witness p xs (ground arith) in (y, inr m, k)
  ]

  pub any_of_In : (p : A → Bool) (x : A) (xs : List A) → In x xs → p x ≡ true → any p xs ≡ true
  any_of_In p x [] m h = elim m [ ]
  any_of_In p x (y ∷ xs) (inl e) h = ground (arith, ap p e)
  any_of_In p x (y ∷ xs) (inr m) h = ground (arith, any_of_In p x xs m h)

  pub find-none : (p : A → Bool) (x : A) (xs : List A) → find p xs ≡ none → In x xs → p x ≡ false
  find-none p x [] h m = elim m [ ]
  find-none p x (y ∷ xs) h (inl e) = ground (arith, ap p e)
  find-none p x (y ∷ xs) h (inr m) = ground (arith, find-none p x xs)

  pub In-filter : (p : A → Bool) (x : A) (xs : List A) → In x xs → p x ≡ true → In x (filter p xs)
  In-filter p x [] m h = elim m [ ]
  In-filter p x (y ∷ xs) (inl e) h = rw (ap p e ∙ h) (inl e)
  In-filter p x (y ∷ xs) (inr m) h = elim (Bool-cases (p y)) [
    | inl k ↦ rw k (inr (In-filter p x xs m h))
    | inr k ↦ rw k (In-filter p x xs m h)
  ]

  pub In-cons_some : (o : Option A) (x : A) (xs : List A) → In x xs → In x (cons_some o xs)
  In-cons_some none x xs m = m
  In-cons_some (some y) x xs m = inr m

  pub In-append_left : (x : A) (xs ys : List A) → In x xs → In x (xs ++ ys)
  In-append_left x [] ys m = elim m [ ]
  In-append_left x (y ∷ xs) ys (inl e) = inl e
  In-append_left x (y ∷ xs) ys (inr m) = inr (In-append_left x xs ys m)

  pub In-append_right : (x : A) (xs ys : List A) → In x ys → In x (xs ++ ys)
  In-append_right x [] ys m = m
  In-append_right x (y ∷ xs) ys m = inr (In-append_right x xs ys m)

  pub In-append_cases : (x : A) (xs ys : List A) → In x (xs ++ ys) → In x xs ⊎ In x ys
  In-append_cases x [] ys m = inr m
  In-append_cases x (y ∷ xs) ys (inl e) = inl (inl e)
  In-append_cases x (y ∷ xs) ys (inr m) = elim (In-append_cases x xs ys m) [
    | inl i ↦ inl (inr i)
    | inr i ↦ inr i
  ]

  pub In-filter_witness :
      (p : A → Bool) (x : A) (xs : List A) → In x (filter p xs) → In x xs × (p x ≡ true)
  In-filter_witness p x [] m = elim m [ ]
  In-filter_witness p x (y ∷ xs) m = elim (Bool-cases (p y)) [
    | inl k ↦
        kept k (In-filter_witness p x xs)
          (subst (λ b. In x (if b then y ∷ filter p xs else filter p xs)) k m)
    | inr k ↦
        let (n, h) =
          In-filter_witness p x xs
            (subst (λ b. In x (if b then y ∷ filter p xs else filter p xs)) k m) in
        (inr n, h)
  ]
    where
      kept :
          p y ≡ true
          → (In x (filter p xs) → In x xs × (p x ≡ true))
          → In x (y ∷ filter p xs)
          → In x (y ∷ xs) × (p x ≡ true)
      kept k ih (inl e) = (inl e, ap p (sym e) ∙ k)
      kept k ih (inr n) = let (i, h) = ih n in (inr i, h)

module _ {A B : Type 0} where
  pub In-filter_map :
      (f : A → Option B) (x : A) (y : B) (xs : List A)
      → In x xs
      → f x ≡ some y
      → In y (filter_map f xs)
  In-filter_map f x y [] m h = elim m [ ]
  In-filter_map f x y (z ∷ xs) (inl e) h =
      subst (λ o. In y (cons_some o (filter_map f xs))) (sym (ap f e ∙ h)) (inl refl)
  In-filter_map f x y (z ∷ xs) (inr m) h =
      In-cons_some (f z) y (filter_map f xs) (In-filter_map f x y xs m h)

  pub In-filter_map_witness :
      (f : A → Option B) (y : B) (xs : List A)
      → In y (filter_map f xs)
      → (x : A) × In x xs × (f x ≡ some y)
  In-filter_map_witness f y [] m = elim m [ ]
  In-filter_map_witness f y (x ∷ xs) m = split (f x) refl (In-filter_map_witness f y xs) m
    where
      split :
          (o : Option B)
          → f x ≡ o
          → (In y (filter_map f xs) → (z : A) × In z xs × (f z ≡ some y))
          → In y (cons_some o (filter_map f xs))
          → (z : A) × In z (x ∷ xs) × (f z ≡ some y)
      split none e ih n = let (z, i, h) = ih n in (z, inr i, h)
      split (some b) e ih (inl k) = (x, inl refl, e ∙ ap some k)
      split (some b) e ih (inr n) = let (z, i, h) = ih n in (z, inr i, h)

module _ {A B : Type 0} where
  pub In-map : (f : A → B) (x : A) (xs : List A) → In x xs → In (f x) (map f xs)
  In-map f x [] m = elim m [ ]
  In-map f x (y ∷ xs) (inl e) = inl (ap f e)
  In-map f x (y ∷ xs) (inr m) = inr (In-map f x xs m)

  pub In-map_witness :
      (f : A → B) (y : B) (xs : List A) → In y (map f xs) → (x : A) × In x xs × (f x ≡ y)
  In-map_witness f y [] m = elim m [ ]
  In-map_witness f y (x ∷ xs) (inl e) = (x, inl refl, e)
  In-map_witness f y (x ∷ xs) (inr m) = let (z, n, e) = In-map_witness f y xs m in (z, inr n, e)
