-- ===== src/Text/Order.antt =====
-- The order of texts is total.
use newgit.Prelude.{◌≡◌, refl, true, false, [], ◌∷◌, arith}
use newgit.Prelude.Sort.{is_gt}
use newgit.Text.{Text, cmp}

pub is_gt-cmp_self : (s : Text) → is_gt (cmp s s) ≡ false
unfolding cmp
is_gt-cmp_self [] = refl
is_gt-cmp_self (c ∷ s) = ground (arith, is_gt-cmp_self s)

pub is_gt-cmp_asymm : (s t : Text) → is_gt (cmp s t) ≡ true → is_gt (cmp t s) ≡ false
unfolding cmp
is_gt-cmp_asymm [] [] h = cc
is_gt-cmp_asymm [] (d ∷ t) h = cc
is_gt-cmp_asymm (c ∷ s) [] h = refl
is_gt-cmp_asymm (c ∷ s) (d ∷ t) h = ground (arith, is_gt-cmp_asymm s t)

pub is_gt-cmp_trans :
    (s t u : Text) → is_gt (cmp s t) ≡ false → is_gt (cmp t u) ≡ false → is_gt (cmp s u) ≡ false
unfolding cmp
is_gt-cmp_trans [] [] u h k = k
is_gt-cmp_trans [] (d ∷ t) [] h k = cc
is_gt-cmp_trans [] (d ∷ t) (e ∷ u) h k = refl
is_gt-cmp_trans (c ∷ s) [] u h k = cc
is_gt-cmp_trans (c ∷ s) (d ∷ t) [] h k = cc
is_gt-cmp_trans (c ∷ s) (d ∷ t) (e ∷ u) h k = ground (arith, is_gt-cmp_trans s t u)
