-- ===== src/Prelude/Sort.antt =====
-- Rust's `sort_by`, which is stable, and `dedup_by`, with what they keep.
use Prim.Native.Nat.{Ordering}
use mathlib.Core.Path.{◌≡◌, refl, subst}
use mathlib.Core.Bool.{Bool, true, false, ◌||◌, ◌&&◌}
use mathlib.Core.List.{List, [], ◌∷◌}
use native.Mathlib.Omega.{arith}
use mathlib.Core.Logic.{◌⊎◌, inl, inr}
use newgit.Prelude.Tests.{if◌then◌else◌, Bool-cases}
use newgit.Prelude.Members.{In}
use newgit.Prelude.Lists.{any, all}

abbrev pub is_gt : Ordering → Bool
is_gt Ordering.gt = true
is_gt _ = false

module _ {ℓ} {A : Type ℓ} where
  unfoldable pub insert_sorted : (A → A → Ordering) → A → List A → List A
  insert_sorted order x [] = x ∷ []
  insert_sorted order x (y ∷ ys) =
      if is_gt (order x y) then y ∷ insert_sorted order x ys else x ∷ y ∷ ys

  unfoldable pub sort_by : (A → A → Ordering) → List A → List A
  unfolding insert_sorted
  sort_by order [] = []
  sort_by order (x ∷ xs) = insert_sorted order x (sort_by order xs)

  dedup_after : (A → A → Bool) → A → List A → List A
  dedup_after same x [] = []
  dedup_after same x (y ∷ ys) =
      let kept = y ∷ dedup_after same y ys in
      let dropped = dedup_after same x ys in if same y x then dropped else kept

  -- Of each run of equals the first stays.
  unfoldable pub dedup_by : (A → A → Bool) → List A → List A
  unfolding dedup_after
  dedup_by same [] = []
  dedup_by same (x ∷ xs) = x ∷ dedup_after same x xs

  pub any-insert_sorted :
      (p : A → Bool) (order : A → A → Ordering) (x : A) (xs : List A)
      → any p (insert_sorted order x xs) ≡ (p x || any p xs)
  unfolding insert_sorted
  any-insert_sorted p order x [] = refl
  any-insert_sorted p order x (y ∷ ys) = ground (arith, any-insert_sorted p order x ys)

  pub any-sort_by :
      (p : A → Bool) (order : A → A → Ordering) (xs : List A) → any p (sort_by order xs) ≡ any p xs
  unfolding sort_by
  any-sort_by p order [] = refl
  any-sort_by p order (x ∷ xs) =
      ground (arith, any-insert_sorted p order x (sort_by order xs), any-sort_by p order xs)

  any-dedup_after :
      (p : A → Bool) (same : A → A → Bool)
      → ((x y : A) → same y x ≡ true → p x ≡ p y)
      → (x : A) (xs : List A) → (p x || any p (dedup_after same x xs)) ≡ (p x || any p xs)
  unfolding dedup_after
  any-dedup_after p same h x [] = refl
  any-dedup_after p same h x (y ∷ ys) =
      ground (arith, h x y, any-dedup_after p same h x ys, any-dedup_after p same h y ys)

  -- A test that cannot tell equals apart sees the same items.
  pub any-dedup_by :
      (p : A → Bool) (same : A → A → Bool)
      → ((x y : A) → same y x ≡ true → p x ≡ p y)
      → (xs : List A) → any p (dedup_by same xs) ≡ any p xs
  unfolding dedup_by
  any-dedup_by p same h [] = refl
  any-dedup_by p same h (x ∷ xs) = any-dedup_after p same h x xs

  all-insert_sorted :
      (p : A → Bool) (order : A → A → Ordering) (x : A) (xs : List A)
      → all p (insert_sorted order x xs) ≡ (p x && all p xs)
  unfolding insert_sorted
  all-insert_sorted p order x [] = refl
  all-insert_sorted p order x (y ∷ ys) = ground (arith, all-insert_sorted p order x ys)

  pub all-sort_by :
      (p : A → Bool) (order : A → A → Ordering) (xs : List A) → all p (sort_by order xs) ≡ all p xs
  unfolding sort_by
  all-sort_by p order [] = refl
  all-sort_by p order (x ∷ xs) =
      ground (arith, all-insert_sorted p order x (sort_by order xs), all-sort_by p order xs)

module _ {A : Type 0} where
  In-insert_sorted :
      (order : A → A → Ordering) (z x : A) (xs : List A)
      → In z (insert_sorted order x xs)
      → (x ≡ z) ⊎ In z xs
  unfolding insert_sorted
  In-insert_sorted order z x [] m = m
  In-insert_sorted order z x (y ∷ ys) m = elim (Bool-cases (is_gt (order x y))) [
    | inl k ↦
        behind (In-insert_sorted order z x ys)
          (subst (λ b. In z (if b then y ∷ insert_sorted order x ys else x ∷ y ∷ ys)) k m)
    | inr k ↦ subst (λ b. In z (if b then y ∷ insert_sorted order x ys else x ∷ y ∷ ys)) k m
  ]
    where
      behind :
          (In z (insert_sorted order x ys) → (x ≡ z) ⊎ In z ys)
          → In z (y ∷ insert_sorted order x ys)
          → (x ≡ z) ⊎ In z (y ∷ ys)
      behind ih (inl e) = inr (inl e)
      behind ih (inr n) = elim (ih n) [ inl e ↦ inl e | inr i ↦ inr (inr i) ]

  -- What stands in the sorted list stood in the list.
  pub In-sort_by :
      (order : A → A → Ordering) (z : A) (xs : List A) → In z (sort_by order xs) → In z xs
  unfolding sort_by
  In-sort_by order z [] m = m
  In-sort_by order z (x ∷ xs) m = elim (In-insert_sorted order z x (sort_by order xs) m) [
    | inl e ↦ inl e
    | inr n ↦ inr (In-sort_by order z xs n)
  ]
