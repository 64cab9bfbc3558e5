-- ===== src/Tracker/Greatest.antt =====
-- The greatest item of a list by an order, and the greatest number (crates/newgit-core/src/tracker.rs:
-- what `owner_of` takes by `max` and `max_by`).
use Prim.Native.Nat.{Ordering}
use newgit.Prelude.{
  ℕ, ◌≤◌, ◌≡◌, ◌≢◌, refl, ap, sym, subst, ◌∙◌, inl, inr, true, false, none, some, List, [], ◌∷◌,
  arith, nat_eq, if◌then◌else◌, In, Bool-cases, Option-cases,
}
use mathlib.Core.Option.{some-injective}
use newgit.Prelude.Sort.{is_gt}
use newgit.Text.Order.{is_gt-cmp_self, is_gt-cmp_asymm, is_gt-cmp_trans}
use newgit.Tracker.Ownership.{max_of, claim_order, max_by_from, max_by}

-- An order that compares any two items, without cycles.
pub record IsTotal {A : Type 0} (order : A → A → Ordering) : Type 0 where
  reflexive : (a : A) → is_gt (order a a) ≡ false
  asymm : (a b : A) → is_gt (order a b) ≡ true → is_gt (order b a) ≡ false
  trans :
      (a b c : A)
      → is_gt (order a b) ≡ false
      → is_gt (order b c) ≡ false
      → is_gt (order a c) ≡ false

module _ {A : Type 0} {order : A → A → Ordering} (total : IsTotal order) where
  max_by_from-ge : (best : A) (xs : List A) → is_gt (order best (max_by_from order best xs)) ≡ false
  unfolding max_by_from
  max_by_from-ge best [] = total.reflexive best
  max_by_from-ge best (x ∷ xs) = elim (Bool-cases (is_gt (order best x))) [
    | inl g ↦ rw g (max_by_from-ge best xs)
    | inr g ↦ rw g (total.trans best x _ g (max_by_from-ge x xs))
  ]

  max_by_from-max :
      (best : A) (xs : List A) (y : A)
      → In y (best ∷ xs)
      → is_gt (order y (max_by_from order best xs)) ≡ false
  unfolding max_by_from
  max_by_from-max best xs y (inl e) =
      subst (λ z. is_gt (order z (max_by_from order best xs)) ≡ false) e (max_by_from-ge best xs)
  max_by_from-max best [] y (inr m) = elim m [ ]
  max_by_from-max best (x ∷ xs) y (inr (inl e)) = elim (Bool-cases (is_gt (order best x))) [
    | inl g ↦ rw (g, ← e) (total.trans x best _ (total.asymm best x g) (max_by_from-ge best xs))
    | inr g ↦ rw (g, ← e) (max_by_from-ge x xs)
  ]
  max_by_from-max best (x ∷ xs) y (inr (inr m)) = elim (Bool-cases (is_gt (order best x))) [
    | inl g ↦ rw g (max_by_from-max best xs y (inr m))
    | inr g ↦ rw g (max_by_from-max x xs y (inr m))
  ]

  max_by_from-cons :
      (best x : A) (xs : List A)
      → max_by_from order best (x ∷ xs)
        ≡ max_by_from order (if is_gt (order best x) then best else x) xs
  unfolding max_by_from
  max_by_from-cons best x xs = refl

  In-skip : (z best x : A) (xs : List A) → In z (best ∷ xs) → In z (best ∷ x ∷ xs)
  In-skip z best x xs (inl e) = inl e
  In-skip z best x xs (inr m) = inr (inr m)

  max_by_from-In : (best : A) (xs : List A) → In (max_by_from order best xs) (best ∷ xs)
  max_by_from-In best [] = unfold max_by_from in inl refl
  max_by_from-In best (x ∷ xs) =
      let Kept = λ (z : A). In z (best ∷ x ∷ xs) in
      elim (Bool-cases (is_gt (order best x))) [
        | inl g ↦
            subst Kept
              (sym (
                max_by_from-cons best x xs
                ∙ ap (λ b. max_by_from order (if b then best else x) xs) g))
              (In-skip _ best x xs (max_by_from-In best xs))
        | inr g ↦
            subst Kept
              (sym (
                max_by_from-cons best x xs
                ∙ ap (λ b. max_by_from order (if b then best else x) xs) g))
              (inr (max_by_from-In x xs))
      ]

  pub max_by-best :
      (xs : List A) (best : A)
      → max_by order xs ≡ some best
      → In best xs × ((y : A) → In y xs → is_gt (order y best) ≡ false)
  unfolding max_by
  max_by-best [] best h = cc
  max_by-best (x ∷ xs) best h =
      let e = some-injective (max_by_from order x xs) best h in
      (
        subst (λ z. In z (x ∷ xs)) e (max_by_from-In x xs),
        λ y m. subst (λ z. is_gt (order y z) ≡ false) e (max_by_from-max x xs y m),
      )

pub claim_order-IsTotal : IsTotal claim_order
unfolding claim_order
claim_order-IsTotal = record {
  reflexive = λ (n, a). ground (arith, is_gt-cmp_self a.name);
  asymm = λ (n, a) (m, b). ground (arith, is_gt-cmp_asymm b.name a.name);
  trans = λ (n, a) (m, b) (k, c). ground (arith, is_gt-cmp_trans c.name b.name a.name);
}

pub max_of-ne-none : (ns : List ℕ) (n : ℕ) → In n ns → max_of ns ≢ none
max_of-ne-none [] n i h = elim i [ ]
max_of-ne-none (k ∷ ns) n i h = ground arith

pub max_of-ge : (ns : List ℕ) (n m : ℕ) → In n ns → max_of ns ≡ some m → n ≤ m
max_of-ge [] n m i h = elim i [ ]
max_of-ge (k ∷ ns) n m (inl e) h = ground arith
max_of-ge (k ∷ ns) n m (inr i) h = elim (Option-cases (max_of ns)) [
  | inl none_left ↦ absurd (max_of-ne-none ns n i none_left)
  | inr (p, q) ↦ ground (arith, q, max_of-ge ns n p i q)
]
